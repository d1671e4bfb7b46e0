-- ===== src/TrackerCpp/EventManager.antt =====
-- tracker_cpp/common/EventManager.cpp, Event.cpp and the destructor of ClientSocket.cpp. A pointer to
-- an event is its position in the list of all events ever made; a deleted one leaves `none`, and a
-- use of it is `none`. The calls of epoll and of `close` have no effect on this state: the
-- descriptors that are ready are an argument.
pub mod Counting
use raiezau.Base.{
  ℕ, zero, suc, ◌+◌, ◌-◌, ◌%◌, ◌^◌, Bool, true, false, not, Option, none, some, List, [], ◌∷◌, ◌++◌,
  ◌==◌, if◌then◌else◌, length, get_elem?, set,
}

-- `Event`; `writer` is `_sockWriter` of a ClientSocket
pub record Event : Type 0 where
  pub fd : ℕ
  pub auto_delete : Bool
  pub writer : Option ℕ

pub record EventManager : Type 0 where
  pub made : List (Option Event)
  pub events : List (ℕ × ℕ)
  pub delete_set : List ℕ
  pub event_count : ℕ

-- the members of `_events`, which is an unordered map
unfoldable pub find_event : ℕ → List (ℕ × ℕ) → Option ℕ
find_event fd [] = none
find_event fd ((k, ev) ∷ events) = if fd == k then some ev else find_event fd events

unfoldable pub erase_event : ℕ → List (ℕ × ℕ) → List (ℕ × ℕ)
erase_event fd [] = []
erase_event fd ((k, ev) ∷ events) =
    let later = erase_event fd events in if fd == k then later else (k, ev) ∷ later

unfoldable pub load_event : ℕ → EventManager → Option Event
load_event ev m = elim (get_elem? m.made ev) [ none ↦ none | some cell ↦ cell ]

-- a set has an element once
unfoldable pub insert_deleted : ℕ → List ℕ → List ℕ
insert_deleted ev [] = ev ∷ []
insert_deleted ev (e ∷ events) = if ev == e then e ∷ events else e ∷ insert_deleted ev events

unfoldable pub unregister_event : ℕ → EventManager → Option EventManager
unfolding load_event erase_event insert_deleted
unregister_event ev m = elim (load_event ev m) [
  | none ↦ none
  | some e ↦ some (record m {
    events = erase_event e.fd m.events;
    delete_set = if e.auto_delete then insert_deleted ev m.delete_set else m.delete_set;
    event_count = (m.event_count + 2 ^ 32 - 1) % 2 ^ 32;
  })
]

-- `insert` of the map keeps an entry that it has; no class redefines `onRegister`
unfoldable pub register_event : ℕ → EventManager → Option EventManager
unfolding load_event find_event
register_event ev m = elim (load_event ev m) [
  | none ↦ none
  | some e ↦ some (record m {
    events = elim (find_event e.fd m.events) [ none ↦ (e.fd, ev) ∷ m.events | some _ ↦ m.events ];
    event_count = (m.event_count + 1) % 2 ^ 32;
  })
]

-- `delete` of an event, which runs `~ClientSocket` for one that has a writer
unfoldable pub delete_event : ℕ → EventManager → Option EventManager
unfolding load_event unregister_event
delete_event ev m = elim (load_event ev m) [
  | none ↦ none
  | some e ↦ elim e.writer [
    | none ↦ some (record m { made = set m.made ev none })
    | some w ↦ elim (unregister_event w m) [
      | none ↦ none
      | some m ↦ some (record m { made = set (set m.made w none) ev none })
    ]
  ]
]

unfoldable pub erase_deleted : ℕ → List ℕ → List ℕ
erase_deleted ev [] = []
erase_deleted ev (e ∷ events) = if ev == e then events else e ∷ erase_deleted ev events

-- a round deletes an event that is not deleted yet: there are at most as many as events
unfoldable pub clean_rounds : ℕ → EventManager → Option EventManager
unfolding delete_event erase_deleted
clean_rounds zero m = elim m.delete_set [ [] ↦ some m | ev ∷ _ ↦ none ]
clean_rounds (suc fuel) m = elim m.delete_set [
  | [] ↦ some m
  | ev ∷ _ ↦ elim (delete_event ev m) [
    | none ↦ none
    | some m ↦ clean_rounds fuel (record m { delete_set = erase_deleted ev m.delete_set })
  ]
]

unfoldable pub clean_delete_list : EventManager → Option EventManager
unfolding clean_rounds
clean_delete_list m = clean_rounds (length m.made) m

-- `event_handler` is the virtual function of that name
module _ (event_handler : ℕ → EventManager → Option (Bool × EventManager)) where
  unfoldable pub handle_event : ℕ → EventManager → Option EventManager
  unfolding unregister_event
  handle_event ev m = elim (event_handler ev m) [
    | none ↦ none
    | some (stays, m) ↦ if stays then some m else unregister_event ev m
  ]

  -- the inner loop of `mainLoop`, over the descriptors that are ready
  unfoldable pub handle_ready : List ℕ → EventManager → Option EventManager
  unfolding find_event handle_event
  handle_ready [] m = some m
  handle_ready (fd ∷ ready) m = elim (find_event fd m.events) [
    | none ↦ handle_ready ready m
    | some ev ↦ elim (handle_event ev m) [ none ↦ none | some m ↦ handle_ready ready m ]
  ]

  -- `mainLoop`, where each call of `epoll_wait` gives the next of the lists; the result tells whether
  -- the loop is over
  unfoldable pub main_loop : List (List ℕ) → EventManager → Option (Bool × EventManager)
  unfolding handle_ready clean_delete_list
  main_loop [] m = some (false, m)
  main_loop (ready ∷ waits) m = elim (handle_ready ready m) [
    | none ↦ none
    | some m ↦ elim (clean_delete_list m) [
      | none ↦ none
      | some m ↦ elim (m.event_count == 0) [ true ↦ some (true, m) | false ↦ main_loop waits m ]
    ]
  ]
