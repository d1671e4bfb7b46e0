-- ===== src/TrackerCpp/EventManager/Counting.antt =====
-- The count of events of EventManager.cpp.
use raiezau.Base.{
  ℕ, zero, suc, ◌-◌, ◌≡◌, ◌≢◌, refl, Bool, true, false, Option, none, some, List, [], ◌∷◌, ◌==◌,
  arith, length, get_elem?, set, get_elem?-lt,
}
use raiezau.TrackerCpp.EventManager.{
  Event, EventManager, find_event, erase_event, load_event, insert_deleted, unregister_event,
  delete_event, erase_deleted, clean_rounds, clean_delete_list, handle_event, handle_ready,
  main_loop,
}

clean_rounds_none :
    (fuel : ℕ) (m : EventManager)
    → clean_rounds fuel (record m { delete_set = [] }) ≡ some (record m { delete_set = [] })
unfolding clean_rounds
clean_rounds_none zero m = refl
clean_rounds_none (suc fuel) m = refl

module _ (made : List (Option Event)) (a b c l p w : ℕ) where
  abbrev pub connected : EventManager
  connected = record {
    made = made;
    events = (a, l) ∷ (b, p) ∷ (c, w) ∷ [];
    delete_set = [];
    event_count = 3;
  }

  abbrev writer_gone : EventManager
  writer_gone = record connected { events = (a, l) ∷ (b, p) ∷ []; event_count = 2 }

  abbrev peer_gone : EventManager
  peer_gone = record connected { events = (a, l) ∷ []; delete_set = p ∷ []; event_count = 1 }

  abbrev pub left : EventManager
  left = record {
    made = set (set made w none) p none;
    events = (a, l) ∷ [];
    delete_set = [];
    event_count = 0;
  }

  module _ (ab : a ≢ b) (ac : a ≢ c) (bc : b ≢ c)
      (peer : get_elem? made p
        ≡ some (some (record { fd = b; auto_delete = true; writer = some w })))
      (writer : get_elem? made w
        ≡ some (some (record { fd = c; auto_delete = false; writer = none }))) where
    first : unregister_event w connected ≡ some writer_gone
    unfolding unregister_event load_event erase_event
    first =
        let ca : (c == a) ≡ false = ground arith in
        let cb : (c == b) ≡ false = ground arith in
        let self : (c == c) ≡ true = ground arith in
        rw (unregister_event, load_event, writer, erase_event, ca, cb, self) refl

    second : unregister_event p writer_gone ≡ some peer_gone
    unfolding unregister_event load_event erase_event insert_deleted
    second =
        let ba : (b == a) ≡ false = ground arith in
        let self : (b == b) ≡ true = ground arith in
        rw (unregister_event, load_event, peer, erase_event, ba, self, insert_deleted) refl

    again : unregister_event w peer_gone ≡ some (record peer_gone { event_count = 0 })
    unfolding unregister_event load_event erase_event
    again =
        let ca : (c == a) ≡ false = ground arith in
        rw (unregister_event, load_event, writer, erase_event, ca) refl

    deleted :
        delete_event p peer_gone
        ≡ some (record peer_gone { event_count = 0; made = set (set made w none) p none })
    unfolding delete_event load_event
    deleted = rw (delete_event, load_event, peer, again) refl

    cleaned : clean_delete_list peer_gone ≡ some left
    unfolding clean_delete_list clean_rounds erase_deleted
    cleaned =
        let lt = get_elem?-lt made p peer in
        let rounds : length made ≡ suc (length made - 1) = omega arith in
        let self : (p == p) ≡ true = ground arith in
        rw (clean_delete_list, rounds, clean_rounds, deleted, erase_deleted, self)
          (clean_rounds_none (length made - 1) left)

    -- On a manager of three events, a listener, a connected peer that is to be deleted once it is
    -- unregistered, and the writer of the peer, on different descriptors and with the right count: if
    -- the handler of the writer says that it is to go and then that of the peer, and they leave the
    -- manager as it is, the main loop is over with the listener still registered, whatever would be
    -- ready later.
    pub main_loop_over :
        (event_handler : ℕ → EventManager → Option (Bool × EventManager)) (waits : List (List ℕ))
        → ((m : EventManager) → event_handler w m ≡ some (false, m))
        → ((m : EventManager) → event_handler p m ≡ some (false, m))
        → main_loop event_handler ((c ∷ []) ∷ (b ∷ []) ∷ waits) connected ≡ some (true, left)
    unfolding main_loop handle_ready handle_event find_event clean_delete_list
    main_loop_over event_handler waits hw hp =
        let ca : (c == a) ≡ false = ground arith in
        let cb : (c == b) ≡ false = ground arith in
        let ba : (b == a) ≡ false = ground arith in
        let self_b : (b == b) ≡ true = ground arith in
        let self_c : (c == c) ≡ true = ground arith in
        let ready1 : handle_ready event_handler (c ∷ []) connected ≡ some writer_gone =
          rw (handle_ready, find_event, ca, cb, self_c, handle_event, hw connected, first) refl in
        let ready2 : handle_ready event_handler (b ∷ []) writer_gone ≡ some peer_gone =
          rw (handle_ready, find_event, ba, self_b, handle_event, hp writer_gone, second) refl in
        let clean1 : clean_delete_list writer_gone ≡ some writer_gone =
          clean_rounds_none (length made) writer_gone in
        rw (main_loop, ready1, clean1) (rw (main_loop, ready2, cleaned) refl)
