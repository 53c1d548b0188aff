-- ===== src/Tests/Prompts.antt =====
-- A prompt over the daemon of the tests.
use onionmsg.Base.{
  true, false, ◌≡◌, refl, [], ◌∷◌, ◌++◌, List, map, some, Bytes, codes, trim, same, ok, arith,
}
use onionmsg.Base64.{decode, digit_of, decode_groups}
use onionmsg.Ed25519.{toy}
use onionmsg.Identity.{new_identity, empty_meta}
use onionmsg.Peer.{new_messaging_peer}
use onionmsg.Daemon.State.{Daemon}
use onionmsg.Daemon.Services.{create_contact_id}
use onionmsg.Daemon.Requests.{send_message}
use onionmsg.Daemon.Rooms.{delete_contact_id, create_room}
use onionmsg.Lifecycle.{missing, Process}
use onionmsg.Console.{Console, Fresh, Verb, trimmed, text_content}
use onionmsg.Console.Commands.{run_verb, start_interactive}
use onionmsg.Console.Operations.{run_verb-operations}
use onionmsg.Console.Rooms.{run_verb-create_room}
use onionmsg.Console.Endless.{at_end, refusals, start_interactive-endless}
use onionmsg.Tests.Data.{alice_key, bob, bob_fp, daemon, ports, plain, room_id, willing_tor}
use onionmsg.Tests.Runs.{storage}

abbrev fresh : Fresh
fresh = record {
  key = alice_key;
  id = 3 ∷ [];
  make = λ r i. ok (new_messaging_peer i);
  times = λ n. n;
  now = 5;
}

abbrev process : Process
process = record {
  tor_running = true;
  load_fuse = true;
  listening = true;
  auto_accept_requests = false;
  daemon = daemon;
  file = missing;
}

abbrev console : Console
console = record { process = process; lines = []; said = []; exited = false }

abbrev after : Verb → List Bytes → Daemon
after v lines =
    (run_verb storage willing_tor ports toy plain some (λ id. id) fresh [] v
      (record console { lines = lines })).1.process.daemon

run_verb-operations_example :
    let first : Bytes = room_id ++ codes " \n" in
    let second : Bytes = codes "hello\n" in
    (after Verb.rm_cont (first ∷ second ∷ [])
      ≡ (delete_contact_id willing_tor ports (trimmed first) daemon).1)
    × (after Verb.send_message (first ∷ second ∷ [])
        ≡ (send_message willing_tor ports toy plain some 5
            (trimmed first)
            (text_content (trimmed second))
            daemon).1)
    × (after Verb.add_cont (first ∷ second ∷ [])
        ≡ (create_contact_id willing_tor ports alice_key daemon).1)
run_verb-operations_example =
    run_verb-operations storage willing_tor ports toy plain some (λ id. id) fresh []
      (room_id ++ codes " \n") (codes "hello\n") [] console

run_verb-create_room_example :
    after Verb.add_room ((bob_fp ++ codes "\n") ∷ [] ∷ codes "exit" ∷ [])
    ≡ (create_room toy plain fresh.make fresh.times willing_tor ports alice_key
        (3 ∷ [])
        (map trimmed ((bob_fp ++ codes "\n") ∷ []))
        daemon).1
unfolding trimmed trim same new_identity decode digit_of decode_groups
run_verb-create_room_example =
    run_verb-create_room storage willing_tor ports toy plain some (λ id. id) fresh []
      ((bob_fp ++ codes "\n") ∷ []) (record bob { meta = some empty_meta }) [] (codes "exit" ∷ [])
      console (record bob { meta = some empty_meta }, [], refl, refl, (λ e. ground arith), refl)

start_interactive-endless_example :
    start_interactive storage willing_tor ports toy plain some
      (λ id. id)
      (fresh ∷ fresh ∷ [])
      (at_end process [])
    ≡ (ok tt, at_end process ([] ++ refusals (fresh ∷ fresh ∷ [])))
start_interactive-endless_example =
    start_interactive-endless storage willing_tor ports toy plain some (λ id. id)
      (fresh ∷ fresh ∷ []) process []
