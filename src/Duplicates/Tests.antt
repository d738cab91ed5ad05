-- ===== src/Duplicates/Tests.antt =====
-- core/duplicate_finder.py: the cases of the module's laws, and runs.
use hyper_loader.Prelude.{
  List, Option, Text, [], ap, codes, drop, if◌then◌else◌, none, refl, some, take, text_eq,
  text_eq_iff, ◌∷◌, ◌≡◌,
}
use hyper_loader.Duplicates.{scan_directory_for_duplicates}
use hyper_loader.Duplicates.Laws.{pairs_after, scan_directory_for_duplicates-pairs_after}

-- the content follows the first letter of a path
abbrev content : Text → Text
content path = b':' ∷ drop 1 path

abbrev head_of : Text → Text
head_of path = take 2 (content path)

abbrev paths : List Text
paths = codes "1ab" ∷ codes "2ac" ∷ codes "3ab" ∷ codes "4b" ∷ codes "5ac" ∷ codes "6ab" ∷ []

three_found :
    pairs_after content [] paths
    ≡ (codes "3ab", codes "1ab") ∷ (codes "5ac", codes "2ac") ∷ (codes "6ab", codes "1ab") ∷ []
unfolding text_eq
three_found = refl

-- a file without a hash is left out, and so is not compared with
abbrev hash_but_first : Text → Option Text
hash_but_first path = if text_eq path (codes "1ab") then none else some (content path)

unreadable :
    scan_directory_for_duplicates (λ p. some (head_of p)) hash_but_first paths
    ≡ (codes "5ac", codes "2ac") ∷ (codes "6ab", codes "3ab") ∷ []
unfolding scan_directory_for_duplicates
unreadable = refl

scan_directory_for_duplicates-pairs_after_example :
    scan_directory_for_duplicates (λ p. some (head_of p)) (λ p. some (content p)) paths
    ≡ pairs_after content [] paths
scan_directory_for_duplicates-pairs_after_example =
    scan_directory_for_duplicates-pairs_after head_of content (λ p. refl) (λ p. refl)
      (λ p q same.
        (text_eq_iff (head_of p) (head_of q)).1
          (ap (take 2) ((text_eq_iff (content p) (content q)).0 same)))
      paths
