-- ===== src/Lib.antt =====
-- A model of the download queue of Hyper Loader (SnapDownloader), of the direct downloads and the
-- helpers that they use, of what it does with finished files, subscriptions, playlists and sessions, and
-- of its trial.
--
-- The queue (core/queue_manager.py) is a list of tasks (core/task_types.py) with a few flags, kept
-- by one object, `QueueManager`. The windows add and edit tasks through it; a timer asks it
-- whether a scheduled task is due; the download controller asks it for a plan of the tasks to start,
-- and has it reserve them and emit one signal for each worker to start; on demand it is reordered by
-- core/queue_ai.py. A direct download is fetched by `SegmentedProvider`
-- (core/download_providers_oop/segmented_provider.py), by several connections or by one, and can be
-- resumed; it asks core/network_safety.py whether a host may be used. The downloads go through the proxies of
-- core/proxy_manager.py, and use the attempts with waits of core/retry_utils.py and the limits by
-- the time of day of core/bandwidth_scheduler.py. The parts of the program call each other
-- through core/event_bus.py. The trial (core/trial_manager.py) stands alone.
--
-- What a download asks of yt-dlp is decided by core/media_engine. A finished download is moved by
-- core/download_organizer.py, and a folder is searched for files with the same content by
-- core/duplicate_finder.py. New downloads come from the checks of core/channel_subscriptions.py, and from
-- the playlists that core/playlist_sync_scheduler.py takes from core/playlist_sync_service.py. The queue
-- and the settings are saved by core/session_service.py, some time after a request.
--
-- Files and code:
--   Task              `DownloadTask`: the keys that the queue reads or writes, and its updates
--   Task/Status       the enumerations and their normalisation
--   Queue             the state and the signals of `QueueManager`, and the sets of statuses
--   Queue/Domains     `_normalized_domain`, `_domain_concurrency_limit`
--   Queue/Plan        the first loops of `plan_parallel_start`: tally, ready items, retry time
--   Queue/Choose      `_smart_priority_key`, the order and the selection of `plan_parallel_start`
--   Queue/Dispatch    `dispatch_parallel_ready_tasks`; start, stop, pause, resume
--   Queue/Add         `add_task`, `add_tasks`, and the identities they give
--   Queue/Edit        the edits of single items, `move_task`, `restore_stale_running_tasks`
--   Queue/Schedule    `_check_scheduled_tasks`
--   Queue/View        `get_download_entries_page` on the items in memory
--   Queue/ViewCache   the cache in front of the database's pages
--   Queue/Commands    the retry of failed items
--                     (core/window_controllers/queue_optimization_controller.py)
--   Bandwidth         the rules of `BandwidthScheduler` (core/bandwidth_scheduler.py)
--   Bandwidth/Clock   its texts and ranges of times
--   Trial             the days that are left of a trial (core/trial_manager.py)
--   Retry             the classification of errors and `run_with_retries` (core/retry_utils.py)
--   Optimizer         `SmartQueueAI` (core/queue_ai.py)
--   Segments          `SegmentedProvider` (core/download_providers_oop/segmented_provider.py):
--   Segments/Chunks   `_compute_connections`, `_compute_chunk_size`, the plan of `_download_segmented`
--   Segments/Ranges   `_validate_chunk_response`
--   Segments/Fetch    `_download_chunk`
--   Segments/Pool     the threads of `_download_segmented`, as a step relation
--   Segments/Resume   `_load_resume_chunk_indices`, `_save_...`, `_maybe_save_...`
--   Segments/Simple   `_download_simple` and its metadata
--   Network           the checks of hosts and peers (core/network_safety.py)
--   Proxy             the state of `ProxyManager` (core/proxy_manager.py)
--   Proxy/Pick        `_pick_next_proxy_locked`
--   Proxy/Calls       `get_current_proxy`, `rotate`, `on_failure`, and the edits of the list
--   Events            `EventBus` (core/event_bus.py)
--   Organizer         `organize_download_output` (core/download_organizer.py)
--   Organizer/Names   its folders, and the files that belong to another
--   Subscriptions     `ChannelSubscription`, the edits of the list and the accesses of the database
--                     (core/channel_subscriptions.py)
--   Subscriptions/Ids `_collect_new_video_ids`
--   Subscriptions/Check  `_check_subscription`
--   Playlists         the playlists in flight and `_poll_once` (core/playlist_sync_service.py,
--                     core/playlist_sync_scheduler.py)
--   Playlists/Metadata  what is written about a synchronisation, and the backoff
--   Duplicates        `scan_directory_for_duplicates` (core/duplicate_finder.py)
--   Session           the timer of the requested saves, as steps (core/session_service.py)
--   Session/Write     `write_session_payload`, and `build_session_payload`
--                     (core/window_controllers/settings_controller.py)
--   Formats           the lists of selectors (core/media_engine/format_decision_engine.py)
--   Formats/Profile   `MediaProfile.from_task`, `_extract_height`
--   Formats/Selectors the codecs and the selectors of one loop
--   Prelude           shared names: lists, texts as lists of code points, results, integers
-- The modules below these hold the proofs; the modules Tests hold runs at concrete inputs.
--
-- Conventions. A method takes the state and returns the new state with the signals it emits, in their
-- order; what runs under the lock of the object is one step, and a method that takes the lock twice
-- is two functions (`plan_parallel_start` and `commit`), so that what holds of any plan holds of one
-- made of an older state. An exception is the value `raise` of a result. A number that the code reads
-- by `float(v or 0)` is a natural number, of a unit of time for the times, or the value `bad` on
-- which the conversion raises; a negative number is read as 0, which the code's tests treat alike.
-- A file system is the function from a path to what stands there, and a database is a record of its
-- statements. A move of a file may raise, and may then leave something at its target; a folder is made
-- only where nothing stands. The starts and stops of the session's timer are queued, as in a Qt
-- application, and the main thread runs them at any later time. The body of an answer about a chunk may
-- end anywhere; the theorem on the whole file says that it relies on whole bodies.
-- The loops are structural recursions on the list that the code walks. Three have fuel: the loop of
-- `_sleep_with_abort` has the wait, in units of the smallest quantum; the plan of chunks has the size of the
-- file, as each chunk has a byte; and the attempts at a chunk are the three of the code.
-- A file is the function from its positions to its bytes. What a server answers at each request, what
-- each look at the cancel event, each call of the clock, each answer of the name service and each
-- random choice gives are functions of its number. `uuid4`, the size getter, the query to the database,
-- the digests, the parser of addresses and the library of network addresses are parameters.
--
-- Not modelled: the downloads by yt-dlp and ffmpeg, the calls of sockets and files, the keyring and the
-- database, as their behaviour is not in the source; the windows and most of their controllers, which
-- pass values between Qt and the parts above; names and tags of files, memory and disk watching,
-- configuration and translations.
mod Prelude
pub mod Task
pub mod Queue
pub mod Retry
pub mod Bandwidth
pub mod Trial
pub mod Segments
pub mod Proxy
pub mod Network
pub mod Optimizer
pub mod Events
pub mod Organizer
pub mod Subscriptions
pub mod Playlists
pub mod Duplicates
pub mod Session
pub mod Formats
