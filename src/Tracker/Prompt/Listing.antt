-- ===== src/Tracker/Prompt/Listing.antt =====
-- The lists of clients, files and peers that the prompt of tracker/prompt.c prints, and
-- `file_print_peer_list` of tracker/file.c.
use raiezau.Base.{
  ℕ, ◌+◌, Bool, true, false, Option, none, some, List, [], ◌∷◌, ◌++◌, ◌==◌, if◌then◌else◌,
  get_elem?,
}
use raiezau.Base.Bytes.{Bytes, codes}
use raiezau.Cutil.HashTable
use raiezau.Cutil.Text.{asprintf}
use raiezau.Cutil.Uthash.{Uthash}
use raiezau.Tracker.Client.{client_list, ip_stringify}
use raiezau.Tracker.Env.{decimal}
use raiezau.Tracker.File.{file_get_by_key, file_get_by_name, file_list}
use raiezau.Tracker.State.{Client, File, State}

-- one text after another, unless one of them is a fault
unfoldable pub then_print : Option Bytes → Option Bytes → Option Bytes
then_print first second = elim first [
  | none ↦ none
  | some s ↦ elim second [ none ↦ none | some t ↦ some (s ++ t) ]
]

module _ (u : Uthash ℕ) where
  -- `append_peer` on each entry of a file's table
  unfoldable pub append_peers :
      List (Option Client) → List (Bytes × ℕ) → Bool → Bytes → Option Bytes
  append_peers client_at [] first str = some str
  append_peers client_at ((n, c) ∷ es) first str = elim (get_elem? client_at c) [
    | none ↦ none
    | some cell ↦ elim cell [
      | none ↦ none
      | some k ↦ elim k.listen_addr_key [
        | none ↦ none
        | some key ↦
            let bar = if first then [] else codes " | " in
            append_peers client_at es false (asprintf (str ++ (bar ++ key))).0
      ]
    ]
  ]

  unfoldable pub file_print_peer_list : State u → File u → Option Bytes
  unfolding append_peers HashTable.entry_count
  file_print_peer_list s f =
      if HashTable.entry_count u f.clients == 0
      then some (f.filename ++ (codes "|" ++ (f.md5_str ++ codes ": No peers\n")))
      else elim (append_peers s.client_at (u.entries f.clients) true []) [
        | none ↦ none
        | some str ↦
            some (f.filename ++ (codes "|" ++ (f.md5_str ++ (codes ": [" ++ (str ++ codes "]\n")))))
      ]

  -- the loop of `print_client_list`; `i` numbers the clients
  unfoldable pub client_lines : List (Option Client) → ℕ → List ℕ → Option Bytes
  unfolding then_print ip_stringify decimal
  client_lines client_at i [] = some []
  client_lines client_at i (c ∷ cl) = elim (get_elem? client_at c) [
    | none ↦ none
    | some cell ↦ elim cell [
      | none ↦ none
      | some k ↦
          then_print
            (some (
              codes "#"
              ++ (decimal i
                  ++ (codes ": "
                      ++ (ip_stringify k.addr
                          ++ (codes " listening on port "
                              ++ (decimal k.listening_port ++ codes "\n")))))))
            (client_lines client_at (i + 1) cl)
    ]
  ]

  unfoldable pub print_client_list : State u → Option Bytes
  unfolding client_lines client_list
  print_client_list s = elim (client_list u s) [
    | [] ↦ some (codes "No clients.\n")
    | c ∷ cl ↦ client_lines s.client_at 1 (c ∷ cl)
  ]

  unfoldable pub file_lines : List (File u) → ℕ → List ℕ → Option Bytes
  unfolding then_print decimal
  file_lines files i [] = some []
  file_lines files i (p ∷ l) = elim (get_elem? files p) [
    | none ↦ none
    | some f ↦
        then_print
          (some (
            codes "#"
            ++ (decimal i
                ++ (codes ": "
                    ++ (f.filename
                        ++ (codes " | "
                            ++ (f.md5_str
                                ++ (codes " | "
                                    ++ (decimal f.length
                                        ++ (codes " B | "
                                            ++ (decimal f.piece_count
                                                ++ (codes " p | ps: "
                                                    ++ (decimal f.piece_size
                                                        ++ codes "\n")))))))))))))
          (file_lines files (i + 1) l)
  ]

  unfoldable pub print_file_list : State u → Option Bytes
  unfolding file_lines file_list
  print_file_list s = elim (file_list u s) [
    | [] ↦ some (codes "No files.\n")
    | p ∷ l ↦ file_lines s.files 1 (p ∷ l)
  ]

  -- the peers of each of the files
  unfoldable pub peer_lists : State u → List ℕ → Option Bytes
  unfolding file_print_peer_list then_print
  peer_lists s [] = some []
  peer_lists s (p ∷ l) = elim (get_elem? s.files p) [
    | none ↦ none
    | some f ↦ then_print (file_print_peer_list s f) (peer_lists s l)
  ]

  unfoldable pub print_peer_list : State u → Bytes → Option Bytes
  unfolding peer_lists file_get_by_name file_get_by_key
  print_peer_list s file_id = elim (file_get_by_name u s file_id) [
    | some l ↦ peer_lists s l
    | none ↦ elim (file_get_by_key u s file_id) [
      | some p ↦ peer_lists s (p ∷ [])
      | none ↦ some (codes "No such file: " ++ (file_id ++ codes "\n"))
    ]
  ]
