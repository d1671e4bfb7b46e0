-- ===== src/Tracker/Config.antt =====
-- tracker/config.c and `main` of tracker/main.c: the options of the command line and of the
-- configuration file. The table `options` maps names to texts. What getopt_long finds on the
-- command line is a list, and the files are a parameter.
pub mod Precedence
pub mod Startup
use raiezau.Base.{
  ℕ, ◌%◌, ◌^◌, Bool, true, false, not, Option, none, some, List, [], ◌∷◌, ◌==◌, if◌then◌else◌,
}
use raiezau.Base.Bytes.{Bytes, codes}
use raiezau.Cutil.HashTable
use raiezau.Cutil.HashTable.{Status, success, failure}
use raiezau.Cutil.Uthash.{Uthash}
use raiezau.Cutil.Yaml.{
  Event, Content, mapping, sequence, scalar, Result, crashed, waiting, returned, wrap_at,
  yaml2_parse_file,
}
use raiezau.Tracker.Env.{atoi}

-- The results of `getopt_long`, `optarg` with the options that take one.
pub data Opt : Type 0 where
  help_opt version_opt daemon_opt unknown_opt : Opt
  conf_opt port_opt : Bytes → Opt

-- The file of a name: whether it exists and opens, whether libyaml's parser starts on it, what
-- malloc returns for the reader's stack, and what the parser delivers.
pub record Document : Type 0 where
  pub exists : Bool
  pub initialized : Bool
  pub opened : Bool
  pub memory : List ℕ
  pub events : List (Option Event)

-- `exit` with its status, or the options.
pub data Parsed (T : Type 0) : Type 0 where
  exited : Status → Parsed T
  parsed : T → Parsed T

-- What `main` comes to: `exit`, or `server_run_bind_any_addr` on the port, as a daemon or not.
pub data Main : Type 0 where
  exits : Status → Main
  serves : (daemon : Bool) → (port : ℕ) → Main

module _ (o : Uthash Bytes) where
  open o use {Table}

  unfoldable pub option_get_config_file_path : Table → Bytes
  option_get_config_file_path options = elim (HashTable.get_entry o options (codes "conf")) [
    | none ↦ codes "./config.yaml"
    | some path ↦ path
  ]

  unfoldable pub option_daemonize : Table → Bool
  unfolding atoi
  option_daemonize options = elim (HashTable.get_entry o options (codes "daemonize")) [
    | none ↦ false
    | some daemonize ↦ not (atoi daemonize == 0)
  ]

  -- the `int` is returned as a `uint16_t`
  unfoldable pub option_get_port : Table → ℕ
  unfolding atoi
  option_get_port options = elim (HashTable.get_entry o options (codes "port")) [
    | none ↦ 8000
    | some port ↦ atoi port % 2 ^ 16
  ]

  unfoldable pub parse_options : (Bytes → Document) → List Opt → Table → Parsed Table
  parse_options files [] options = parsed options
  parse_options files (help_opt ∷ opts) options = exited success
  parse_options files (version_opt ∷ opts) options = exited success
  parse_options files (unknown_opt ∷ opts) options = exited failure
  parse_options files (daemon_opt ∷ opts) options =
      parse_options files opts (HashTable.add_entry o options (codes "daemonize") (codes "1"))
  parse_options files (port_opt optarg ∷ opts) options =
      parse_options files opts (HashTable.add_entry o options (codes "port") optarg)
  parse_options files (conf_opt optarg ∷ opts) options =
      let later = parse_options files opts (HashTable.add_entry o options (codes "conf") optarg) in
      if not (files optarg).exists then exited failure else later

module _ (o : Uthash Bytes) (y : Uthash ℕ) where
  open o use {Table}

  -- `none` is an access through a pointer that points to no structure
  unfoldable pub load_option_from_config :
      List (Content y) → Bytes → ℕ → Option Table → Option Table
  unfolding wrap_at
  load_option_from_config wraps key value none = none
  load_option_from_config wraps key value (some options) =
      if not (HashTable.has_entry o options key)
      then elim (wrap_at y wraps value) [
        | none ↦ none
        | some content ↦ elim content [
          | scalar text ↦ some (HashTable.add_entry o options key text)
          | mapping t ↦ some options
          | sequence l ↦ some options
        ]
      ]
      else some options

  -- what is done with the result of `yaml2_parse_file`; `none` is a crash in it, a run of it
  -- without end, and a read of the type through a `yw` that was not written
  unfoldable pub load_result : Result y → Table → Option Table
  unfolding load_option_from_config wrap_at
  load_result crashed options = none
  load_result waiting options = none
  load_result (returned failure yw wraps) options = some options
  load_result (returned success none wraps) options = none
  load_result (returned success (some yw) wraps) options = elim (wrap_at y wraps yw) [
    | none ↦ none
    | some content ↦ elim content [
      | mapping t ↦ HashTable.for_each y t (load_option_from_config wraps) (some options)
      | sequence l ↦ some options
      | scalar text ↦ some options
    ]
  ]

  unfoldable pub load_config_file : (Bytes → Document) → Table → Option Table
  unfolding load_result option_get_config_file_path yaml2_parse_file
  load_config_file files options =
      let file = files (option_get_config_file_path o options) in
      if not file.exists
      then some options
      else load_result (yaml2_parse_file y file.initialized file.opened file.memory file.events)
          options

  -- the rest of `main`, from the options of the command line
  unfoldable pub main_from : (Bytes → Document) → Parsed Table → Option Main
  unfolding load_config_file option_daemonize option_get_port
  main_from files (exited status) = some (exits status)
  main_from files (parsed options) = elim (load_config_file files options) [
    | none ↦ none
    | some options ↦ some (serves (option_daemonize o options) (option_get_port o options))
  ]

  unfoldable pub main : (Bytes → Document) → List Opt → Option Main
  unfolding main_from parse_options
  main files opts = main_from files (parse_options o files opts (HashTable.create o))
