-- ===== src/Console/Endless.antt =====
-- The prompt at the end of its input.
use onionmsg.Base.{
  ◌≡◌, ap, sym, ◌∙◌, false, List, [], ◌∷◌, ◌++◌, append_assoc, append-nil, Option, Bytes, same, ok,
}
use onionmsg.Ed25519.{Scheme}
use onionmsg.Message.{Marshal}
use onionmsg.Tor.{Controller}
use onionmsg.Daemon.Services.{Ports}
use onionmsg.Lifecycle.{Storage, Process}
use onionmsg.Console.{Said, prompt, unknown_command, Console, Fresh, say, read_line, verb_of}
use onionmsg.Console.Commands.{run_verb, take_turn, start_interactive}

-- What is printed in each turn.
abbrev pub refusals : List Fresh → List Said
refusals [] = []
refusals (f ∷ fs) = prompt ∷ unknown_command [] ∷ refusals fs

-- A console that has no lines left.
abbrev pub at_end : Process → List Said → Console
at_end p said = record { process = p; lines = []; said = said; exited = false }

module _ (g : Storage) (ctrl : Controller) (ports : Ports) (c : Scheme) (j : Marshal)
    (parse : Bytes → Option Bytes) (show : Bytes → Bytes) where
  -- Once the input has ended, the prompt never does: however many turns follow, each prints the
  -- prompt and that the empty text is no command, and nothing else changes.
  pub start_interactive-endless :
      (turns : List Fresh) (p : Process) (said : List Said)
      → start_interactive g ctrl ports c j parse show turns (at_end p said)
        ≡ (ok tt, at_end p (said ++ refusals turns))
  unfolding start_interactive take_turn run_verb verb_of read_line say same
  start_interactive-endless [] p said = ap (λ x. (ok tt, at_end p x)) (sym (append-nil said))
  start_interactive-endless (f ∷ turns) p said =
      start_interactive-endless turns p ((said ++ (prompt ∷ [])) ++ (unknown_command [] ∷ []))
      ∙ ap (λ x. (ok tt, at_end p x))
          (append_assoc (said ++ (prompt ∷ [])) (unknown_command [] ∷ []) (refusals turns)
            ∙ append_assoc said (prompt ∷ []) (unknown_command [] ∷ refusals turns))
