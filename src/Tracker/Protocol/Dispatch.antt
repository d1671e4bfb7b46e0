-- ===== src/Tracker/Protocol/Dispatch.antt =====
-- The choice of the handler: `protocol_init` and `get_request_handler`.
use raiezau.Base.{◌≡◌, ◌≢◌, refl, ap, ◌∙◌, Option, none, some, List, [], ◌∷◌, if◌then◌else◌, All}
use raiezau.Base.Bytes.{Bytes, codes, str_eq}
use raiezau.Cutil.HashTable
use raiezau.Cutil.HashTable.Keys.{lookup, Distinct}
use raiezau.Cutil.HashTable.Laws.{get_entry-lookup}
use raiezau.Cutil.Text.{c_string, str_replace_char}
use raiezau.Cutil.Text.Copies.{before_either, c_string-replace}
use raiezau.Cutil.Uthash.{Uthash}
use raiezau.Tracker.Protocol.{
  Handler, announce, update, look, getfile, request_handlers, get_request_handler,
}

-- The handler of a name.
pub handler_of : Bytes → Option Handler
handler_of name =
    if str_eq (codes "announce") name
    then some announce
    else if str_eq (codes "update") name
    then some update
    else if str_eq (codes "look") name
    then some look
    else if str_eq (codes "getfile") name
    then some getfile
    else none

module _ (handlers : Uthash Handler) where
  open handlers use {entries, entries-add, entries-nil}

  abbrev registered : List (Bytes × Handler)
  registered =
      (codes "announce", announce)
      ∷ (codes "update", update)
      ∷ (codes "look", look)
      ∷ (codes "getfile", getfile)
      ∷ []

  entries-request_handlers : entries (request_handlers handlers) ≡ registered
  unfolding request_handlers HashTable.create HashTable.add_entry
  entries-request_handlers = simp (entries-add, entries-nil)

  request_handlers-Distinct : Distinct (entries (request_handlers handlers))
  unfolding str_eq
  request_handlers-Distinct =
      rw entries-request_handlers
        ((refl, (refl, (refl, tt))), ((refl, (refl, tt)), ((refl, tt), (tt, tt))))

  split :
      (name : Bytes)
      → get_request_handler handlers name
        ≡ HashTable.get_entry handlers
            (request_handlers handlers)
            (c_string (str_replace_char (c_string (str_replace_char name b' ' 0)) b'\n' 0))
  split name = unfold get_request_handler in refl

  lookup-registered : (name : Bytes) → lookup name registered ≡ handler_of name
  unfolding lookup handler_of
  lookup-registered name = refl

  -- The handler that the table of `protocol_init` gives for a text without NULs is the one that
  -- `announce`, `update`, `look` or `getfile` names, read up to the first space or newline; for any
  -- other name there is none.
  pub get_request_handler_lem :
      (name : Bytes)
      → All (λ c. c ≢ 0) name
      → get_request_handler handlers name ≡ handler_of (before_either b' ' b'\n' name)
  get_request_handler_lem name h =
      let word = before_either b' ' b'\n' name in
      split name
      ∙ ap (HashTable.get_entry handlers (request_handlers handlers))
          (c_string-replace b' ' b'\n' name h)
      ∙ get_entry-lookup handlers (request_handlers handlers) word request_handlers-Distinct
      ∙ ap (lookup word) entries-request_handlers
      ∙ lookup-registered word
