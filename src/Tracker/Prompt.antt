-- ===== src/Tracker/Prompt.antt =====
-- tracker/prompt.c, the command line of the tracker. Listing has what the commands print.
-- A command changes nothing of the tracker: it is a function of the shared state to the text that it
-- prints, where `none` is a use of a freed client or of a NULL pointer. Texts are not translated.
pub mod Commands
pub mod Completion
mod Listing
unfoldable pub use Listing.*
use raiezau.Base.{
  ℕ, zero, suc, ◌+◌, ◌-◌, Bool, true, false, not, ◌&&◌, ◌||◌, Option, none, some, List, [], ◌∷◌,
  ◌++◌, ◌==◌, leb, ltb, if◌then◌else◌, length, get_elem?, drop,
}
use raiezau.Base.Bytes.{Bytes, codes, str_eq}
use raiezau.Cutil.HashTable
use raiezau.Cutil.Text.{asprintf, string_split}
use raiezau.Cutil.Uthash.{Uthash}
use raiezau.Tracker.Client.{client_list, ip_stringify}
use raiezau.Tracker.Env.{decimal}
use raiezau.Tracker.File.{file_get_by_key, file_get_by_name, file_list}
use raiezau.Tracker.State.{Client, File, State}

-- `isblank` in the C locale
unfoldable pub isblank : ℕ → Bool
isblank c = c == b' ' || c == b'\t'

unfoldable pub is_white : Bytes → Bool
unfolding isblank
is_white [] = true
is_white (c ∷ str) = isblank c && is_white str

unfoldable pub get_command_help : Bytes → Bytes
unfolding str_eq
get_command_help cmd =
    let quit_str =
      codes "\tNo help for this command. Sorry.\n\tBut this one should be rather obvious ;)" in
    if str_eq cmd (codes "client")
    then codes "\tclient list: print a list of connected client"
    else if str_eq cmd (codes "file")
    then codes
        "\tfile list: print a list of known files\n\tfile peers filename: print peers for file 'filename'"
    else if str_eq cmd (codes "help")
    then codes "\thelp cmd: display the help for 'cmd'"
    else if str_eq cmd (codes "quit")
    then quit_str
    else if str_eq cmd (codes "exit")
    then quit_str
    else if str_eq cmd (codes "peers")
    then codes
        "No arguments: print the list of all peers\nWith arguments: print peers for given file(s)"
    else codes "\tNo help for this command. Sorry."

-- the name and the help of each of the words
unfoldable pub help_loop : List Bytes → Bytes
unfolding get_command_help
help_loop [] = []
help_loop (cmd ∷ words) =
    cmd ++ (codes ":\n" ++ (get_command_help cmd ++ (codes "\n" ++ help_loop words)))

unfoldable pub prompt_command_help : List Bytes → Bytes
unfolding help_loop
prompt_command_help command =
    if ltb 1 (length command)
    then help_loop (drop 1 command)
    else codes "Press [tab][tab] (tabulation twice) to see a list of available commands\n"
      ++ (codes "Run 'help cmd' to get help on the given argument `cmd"
          ++ (0xC2 ∷ 0xB4 ∷ codes "\n"))

-- what a line makes the prompt do
pub data Action : Type 0 where
  -- the argument of `system`
  shell : Bytes → Action
  print : Bytes → Action
  leave : Action

module _ (u : Uthash ℕ) where
  unfoldable pub peers_loop : State u → List Bytes → Option Bytes
  unfolding print_peer_list then_print
  peers_loop s [] = some []
  peers_loop s (file_id ∷ words) = then_print (print_peer_list u s file_id) (peers_loop s words)

  unfoldable pub prompt_command_peers : State u → List Bytes → Option Bytes
  unfolding print_client_list peers_loop
  prompt_command_peers s command =
      if length command == 1 then print_client_list u s else peers_loop s (drop 1 command)

  -- whether there is a second word and it is this one
  unfoldable pub second_is : List Bytes → Bytes → Bool
  second_is command word = elim (get_elem? command 1) [ none ↦ false | some w ↦ str_eq w word ]

  unfoldable pub prompt_command_client : State u → List Bytes → Option Bytes
  unfolding second_is print_client_list get_command_help
  prompt_command_client s command =
      if second_is command (codes "list")
      then print_client_list u s
      else some (get_command_help (codes "client") ++ codes "\n")

  unfoldable pub prompt_command_file : State u → List Bytes → Option Bytes
  unfolding second_is print_file_list prompt_command_peers get_command_help
  prompt_command_file s command =
      if second_is command (codes "list")
      then print_file_list u s
      else if leb 3 (length command) && second_is command (codes "peers")
      then prompt_command_peers s (drop 1 command)
      else some (get_command_help (codes "file") ++ codes "\n")

  unfoldable pub prompt_command_ls : State u → Option Bytes
  unfolding prompt_command_file prompt_command_client then_print
  prompt_command_ls s =
      let cmd = [] ∷ codes "list" ∷ [] in
      then_print (some (codes "File list:\n")) (
        then_print (prompt_command_file s cmd)
          (then_print (some (codes "\nPeer list:\n")) (prompt_command_client s cmd)))

  unfoldable pub say : Option Bytes → Option Action
  say none = none
  say (some text) = some (print text)

  -- the words of a command, the first one apart
  unfoldable pub dispatch : State u → Bytes → List Bytes → Option Action
  unfolding say prompt_command_client prompt_command_file prompt_command_help prompt_command_ls
      prompt_command_peers
  dispatch s name command =
      if str_eq name (codes "client")
      then say (prompt_command_client s command)
      else if str_eq name (codes "file")
      then say (prompt_command_file s command)
      else if str_eq name (codes "help")
      then say (some (prompt_command_help command))
      else if str_eq name (codes "ls")
      then say (prompt_command_ls s)
      else if str_eq name (codes "peers")
      then say (prompt_command_peers s command)
      else if str_eq name (codes "whoami")
      then say (some (codes "tracker\n"))
      else if str_eq name (codes "quit")
      then some leave
      else if str_eq name (codes "exit")
      then some leave
      else say (
          some (
            codes "unknown command '"
            ++ (name ++ codes "'.\ntry the 'help' command to get started!\n")))

  -- `none` is also the access to `command[0]` of no words
  unfoldable pub eval : State u → Bytes → Option Action
  unfolding dispatch
  eval s [] = none
  eval s (c ∷ rest) =
      if c == b'!' then some (shell rest) else elim (string_split (c ∷ rest) (codes " ")) [
        | [] ↦ none
        | name ∷ words ↦ dispatch s name (name ∷ words)
      ]

  -- The lines that `readline` returns, each with the state of the tracker at that time; the end of
  -- the list is a NULL. The result is what was done, the last thing at the end.
  unfoldable pub read_eval_loop : List (Bytes × State u) → Option (List Action)
  unfolding is_white eval
  read_eval_loop [] = some []
  read_eval_loop ((command, s) ∷ lines) =
      let later = read_eval_loop lines in
      if is_white command then later else elim (eval s command) [
        | none ↦ none
        | some leave ↦ some (leave ∷ [])
        | some act ↦ elim later [ none ↦ none | some acts ↦ some (act ∷ acts) ]
      ]

-- the table of `my_generator`
unfoldable pub cmd : List Bytes
cmd =
    codes "quit"
    ∷ codes "exit"
    ∷ codes "help"
    ∷ codes "client"
    ∷ codes "file"
    ∷ codes "peers"
    ∷ codes "ls"
    ∷ codes "whoami"
    ∷ []

-- `strncmp(name, text, len) == 0`, for a `text` of `len` bytes
unfoldable pub is_prefix : Bytes → Bytes → Bool
is_prefix [] name = true
is_prefix (c ∷ text) [] = false
is_prefix (c ∷ text) (d ∷ name) = d == c && is_prefix text name

-- the loop over what is left of the table: the name, and the index after it
unfoldable pub generator_loop : Bytes → List Bytes → ℕ → Option Bytes × ℕ
unfolding is_prefix
generator_loop text [] list_index = (none, list_index)
generator_loop text (name ∷ names) list_index =
    let later = generator_loop text names (list_index + 1) in
    if is_prefix text name then (some name, list_index + 1) else later

-- `fresh` is `!state`; `list_index` is the static variable, and `len` is always that of `text`
unfoldable pub my_generator : Bytes → (fresh : Bool) → ℕ → Option Bytes × ℕ
unfolding generator_loop cmd
my_generator text fresh list_index =
    let start = if fresh then 0 else list_index in generator_loop text (drop start cmd) start

-- whether `my_completion` offers the commands at all
unfoldable pub my_completion : (start : ℕ) → Bool
my_completion start = start == 0
