-- ===== src/Cli.antt =====
-- cli.py, `main`: which command the parsed arguments run, and its exit status.
use sockpost.Common.{ℕ, Bool, List, [], ◌∷◌, ◌++◌, Option, none, some, Text, codes, text_instance}
use sockpost.Common.Dict.{put}
use sockpost.Common.Result.{Result, ok, err}
use sockpost.Python.Value.{Request}
use sockpost.Config.{Environment, env_prefix}
use sockpost.Config.Paths.{Account, load_client_settings, load_paths, path_text}
use sockpost.Store.Tables.{Db}
use sockpost.Daemon.Launch.{SocketFile, Launched, launch, launch_status}
use sockpost.Client.Settings.{ClientSettings, Complaint, Outcome, fail}
use sockpost.Client.Exchange.{Contact, Command, run_command}
use sockpost.Client.Commands.{cmd_send, cmd_forward, cmd_ack}
use sockpost.Client.Wakeup.{cmd_wakeup}
use sockpost.Client.Queue.{Database, Latencies, cmd_unread, cmd_status, cmd_ping}
use sockpost.Client.Listen.{Happening, Listener, Phase, opening, reading, returned, cmd_listen}
use sockpost.Client.Process.{PidFile, Kill, cmd_stop}

-- What argparse makes of a command line: the command and its options, where `none` stands for an option that
-- was not given. The timeout is the number as "%g" prints it.
pub data Arguments : Type 0 where
  no_command stop status : Arguments
  listen : (channel : Option Text) → (manual_ack as_json : Bool) → Arguments
  send : (sender recipient text : Option Text) → Arguments
  forward : (msg_id sender recipient note : Option Text) → Arguments
  ack : (msg_id sender : Option Text) → Arguments
  unread : (channel : Option Text) → Arguments
  ping : (targets timeout : Text) → Arguments
  wakeup : (channel interval : Option Text) → Arguments
  daemon : (socket db : Option Text) → Arguments

-- What a command meets: the answers to it, the database, the clock, the pid file, the socket, and what
-- happens to a listener.
pub record World : Type 0 where
  pub account : Account
  pub contact : Contact
  pub database : Database
  pub results_of : Request → Latencies
  pub sizes : Option ℕ
  pub time : ℕ
  pub now : Text
  pub alive : ℕ → Bool
  pub pid_file : PidFile
  pub kill : Kill
  pub lock_held : Bool
  pub socket_file : SocketFile
  pub file : Option Db
  pub happenings : List Happening

-- How a process ends: with an outcome, not yet (a listener that still runs), or with the help text.
pub data Exit : Type 0 where
  exit : Outcome → Exit
  still_listening : Listener → Exit
  listened : (code : ℕ) → Listener → Exit
  served : Launched → (code : ℕ) → Exit
  prints_help : (code : ℕ) → Exit

-- `os.environ[key] = value`, where the option was given
set_option : Text → Option Text → Environment → Environment
unfolding put
set_option name none environment = environment
set_option name (some []) environment = environment
set_option name (some (c ∷ s)) environment = put (env_prefix ++ name) (c ∷ s) environment

-- The environment that `daemon` is run in.
unfoldable pub daemon_environment : Option Text → Option Text → Environment → Environment
unfolding set_option
daemon_environment socket db environment =
    set_option (codes "DB") db (set_option (codes "SOCKET") socket environment)

run_daemon : World → Environment → Exit
unfolding launch
run_daemon world environment =
    let launched =
      launch world.now (path_text (load_paths world.account environment).socket_path)
        world.lock_held world.socket_file world.file in
    served launched (launch_status launched)

phase_exit : Listener → Phase → Exit
phase_exit l opening = still_listening l
phase_exit l reading = still_listening l
phase_exit l (returned code) = listened code l

listen_exit : Result Complaint Listener → Exit
unfolding phase_exit
listen_exit (err complaint) = exit (fail complaint)
listen_exit (ok l) = phase_exit l l.phase

module _ (world : World) (environment : Environment) where
  client_settings : ClientSettings
  client_settings = load_client_settings world.account environment

  talks : Command → Exit
  talks command = exit (run_command command world.contact)

  -- `main` behind `parser.parse_args`
  unfoldable pub main : Arguments → Exit
  unfolding client_settings talks run_daemon listen_exit daemon_environment
  main no_command = prints_help 2
  main (daemon socket db) = run_daemon world (daemon_environment socket db environment)
  main (listen channel manual_ack as_json) =
      listen_exit (cmd_listen client_settings channel manual_ack as_json world.happenings)
  main (send sender recipient text) = talks (cmd_send client_settings sender recipient text)
  main (forward msg_id sender recipient note) =
      talks (cmd_forward client_settings msg_id sender recipient note)
  main (ack msg_id sender) = talks (cmd_ack client_settings msg_id sender)
  main (unread channel) = exit (cmd_unread world.time world.database channel)
  main status =
      exit (cmd_status world.results_of (world.alive 0) world.database world.sizes world.contact)
  main (ping targets timeout) =
      exit (cmd_ping client_settings world.results_of targets timeout (world.alive 0) world.contact)
  main (wakeup channel interval) = talks (cmd_wakeup client_settings channel interval)
  main stop = exit (cmd_stop world.pid_file world.kill world.alive)
