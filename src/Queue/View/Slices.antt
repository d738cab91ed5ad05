-- ===== src/Queue/View/Slices.antt =====
-- Slices of a list, as `get_download_entries_page` collects them: by a position that counts up.
use hyper_loader.Prelude.{
  Bool-cases, List, [], ap, arith, cons_if, drop, drop-nil, inl, inr, leb, length, ltb, suc, sym,
  take, take-nil, zero, ℕ, ◌&&◌, ◌*◌, ◌++◌, ◌+◌, ◌-◌, ◌∙◌, ◌∷◌, ◌≡◌, ◌≤◌, drop-drop, drop_all,
  take-append-drop,
}
use hyper_loader.Queue.{Entry}

-- the elements at positions in [start, start + size), where the head is at position `m`
abbrev pub window : ℕ → ℕ → ℕ → List Entry → List Entry
window start size m [] = []
window start size m (e ∷ es) =
    cons_if (leb start m && ltb m (start + size)) e (window start size (suc m) es)

window-inside :
    (start size m : ℕ) (l : List Entry)
    → start ≤ m
    → window start size m l ≡ take (start + size - m) l
window-inside start size m [] h = sym (take-nil (start + size - m))
window-inside start size m (e ∷ es) h = elim (Bool-cases (ltb m (start + size))) [
  | inl inside ↦
      let left : start + size - m ≡ suc (start + size - suc m) = ground arith in
      rw left (ground (arith, window-inside start size (suc m) es))
  | inr past ↦
      let none_left : start + size - m ≡ 0 = ground arith in
      let none_later : start + size - suc m ≡ 0 = ground arith in
      rw none_left
        (ground (arith, window-inside start size (suc m) es, ap (λ (n : ℕ). take n es) none_later))
]

pub window-before :
    (start size m : ℕ) (l : List Entry)
    → m ≤ start
    → window start size m l ≡ take size (drop (start - m) l)
window-before start size m [] h = sym (ap (take size) (drop-nil (start - m)) ∙ take-nil size)
window-before start size m (e ∷ es) h = elim (Bool-cases (ltb m start)) [
  | inl before ↦
      let left : start - m ≡ suc (start - suc m) = ground arith in
      rw left (ground (arith, window-before start size (suc m) es))
  | inr at ↦
      let here : start - m ≡ 0 = ground arith in
      let all : start + size - m ≡ size = ground arith in
      rw here
        (window-inside start size m (e ∷ es) (ground arith) ∙ ap (λ (n : ℕ). take n (e ∷ es)) all)
]

-- `m` pages of `size` elements from page `j` on, counted from 0, one after the other
abbrev pub pages : ℕ → ℕ → ℕ → List Entry → List Entry
pages size j zero l = []
pages size j (suc m) l = take size (drop (j * size) l) ++ pages size (suc j) m l

pub pages_rest :
    (size j m : ℕ) (l : List Entry)
    → length l ≤ (j + m) * size
    → pages size j m l ≡ drop (j * size) l
pages_rest size j zero l h =
    let e : j + 0 ≡ j = omega arith in sym (drop_all (j * size) l (rw e at h))
pages_rest size j (suc m) l h =
    let e : j + suc m ≡ suc j + m = omega arith in
    let next : suc j * size ≡ j * size + size = omega arith in
    ap (◌++◌ (take size (drop (j * size) l))) (pages_rest size (suc j) m l (rw e at h))
    ∙ ap (λ (n : ℕ). take size (drop (j * size) l) ++ drop n l) next
    ∙ ap (◌++◌ (take size (drop (j * size) l))) (sym (drop-drop size (j * size) l))
    ∙ take-append-drop size (drop (j * size) l)
