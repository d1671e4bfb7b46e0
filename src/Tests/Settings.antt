-- ===== src/Tests/Settings.antt =====
-- The prompt, configuration files and options at concrete inputs.
use raiezau.Base.{ℕ, zero, suc, ◌≡◌, refl, true, some, List, [], ◌∷◌, ◌⊎◌}
use raiezau.Base.Bytes.{Bytes, codes, str_eq}
use raiezau.Cutil.HashTable
use raiezau.Cutil.Stack
use raiezau.Cutil.HashTable.{success}
use raiezau.Cutil.Text.{string_split}
use raiezau.Cutil.Text.Tokens.{IsToken}
use raiezau.Cutil.Uthash.{assoc, assoc_find}
use raiezau.Cutil.Yaml.{mapping, crashed, returned, yaml2_parse_file}
use raiezau.Cutil.Yaml.Mapping.{pairs, tabled, values, mapping_events, parse_mapping}
use raiezau.Cutil.Yaml.Nesting.{sequence_events, parse_sequence}
use raiezau.Tracker.Config.{Document, port_opt, serves, load_config_file, main}
use raiezau.Tracker.Config.Precedence.{chosen}
use raiezau.Tracker.Config.Startup.{get_entry-load_config_file}
use raiezau.Tracker.Prompt.{shell, is_white, dispatch, eval, cmd}
use raiezau.Tracker.Prompt.Commands.{eval_lem}
use raiezau.Tracker.Prompt.Completion.{completions, matching, completions_lem}
use raiezau.Tracker.State.{State}

abbrev zeros : ℕ → List ℕ
zeros zero = []
zeros (suc n) = 0 ∷ zeros n

abbrev settings : List (Bytes × Bytes)
settings =
    (codes "port", codes "9000") ∷ (codes "daemonize", codes "1") ∷ (codes "port", codes "1") ∷ []

parse_mapping_example :
    yaml2_parse_file (assoc ℕ) true true (zeros 100) (mapping_events settings [])
    ≡ returned success (some 1) (
        mapping (tabled (assoc ℕ) (HashTable.create (assoc ℕ)) 2 settings)
        ∷ values (assoc ℕ) settings)
parse_mapping_example = parse_mapping (assoc ℕ) (zeros 100) settings [] refl

parse_sequence_example :
    yaml2_parse_file
      (assoc ℕ)
      true
      true
      (zeros 100)
      (sequence_events settings (codes "peers") (codes "a" ∷ codes "b" ∷ []) (codes "port") [])
    ≡ crashed
parse_sequence_example =
    parse_sequence (assoc ℕ) (zeros 100) settings (codes "peers") (codes "a" ∷ codes "b" ∷ [])
      (codes "port") [] refl

abbrev file : Document
file = record {
  exists = true;
  initialized = true;
  opened = true;
  memory = zeros 100;
  events = mapping_events settings [];
}

abbrev options : List (Bytes × Bytes)
options = (codes "port", codes "8001") ∷ []

get_entry-load_config_file_example :
    (loaded : List (Bytes × Bytes)) × (load_config_file
        (assoc Bytes)
        (assoc ℕ)
        (λ name. file)
        options
      ≡ some loaded)
    × ((key : Bytes)
        → HashTable.get_entry (assoc Bytes) loaded key
          ≡ chosen (HashTable.get_entry (assoc Bytes) options key) key settings)
get_entry-load_config_file_example =
    get_entry-load_config_file (assoc Bytes) (assoc ℕ) (λ name. file) options settings [] (tt, tt)
      (refl, refl, refl, refl, refl)

completions_lem_example : completions 9 (codes "e") true 5 ≡ some (matching (codes "e") cmd)
completions_lem_example = completions_lem (codes "e") 5

-- the file makes it a daemon, and the command line gives the port
starts :
    main (assoc Bytes) (assoc ℕ) (λ name. file) (port_opt (codes "8001") ∷ [])
    ≡ some (serves true 8001)
unfolding main yaml2_parse_file mapping_events HashTable.create HashTable.add_entry
    HashTable.get_entry HashTable.has_entry HashTable.for_each Stack.push Stack.pop Stack.peek
    Stack.size Stack.create pairs assoc_find str_eq
starts = refl

abbrev nothing : State (assoc ℕ)
nothing = record {
  files = [];
  file_by_hash = [];
  file_by_name = [];
  name_lists = [];
  clients = [];
  client_at = [];
  sent = [];
}

abbrev line : Bytes
line = codes "  help  quit"

eval_lem_example :
    ((rest : Bytes) × (line ≡ b'!' ∷ rest) × (eval (assoc ℕ) nothing line ≡ some (shell rest)))
    ⊎ ((name : Bytes) × (words : List Bytes) × (string_split line (codes " ") ≡ name ∷ words)
        × IsToken (codes " ") name
        × (eval (assoc ℕ) nothing line ≡ dispatch (assoc ℕ) nothing name (name ∷ words)))
eval_lem_example = eval_lem (assoc ℕ) nothing line (unfold is_white in refl)
