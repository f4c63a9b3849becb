-- ===== src/Tests/Accepting.antt =====
-- A node that joins at its second attempt.
use tinc_boot.Prelude.{false, List, [], ◌∷◌, ◌++◌, none, some}
use tinc_boot.Text.{codes}
use tinc_boot.Daemon.Disk.{Disk, calm}
use tinc_boot.Boot.Token.{Json}
use tinc_boot.Boot.Exchange.{Attempt}
use tinc_boot.Boot.Exchange.Accepted.{Accepted}
use tinc_boot.Tests.Inputs.{bob}
use tinc_boot.Tests.Joining.{json as envelopes, nonce}

-- Every archive is of one host under a clean name and of one under another.
abbrev json : Json
json = record envelopes {
  decode_hosts = λ s. some ((codes "Bad.Name", []) ∷ (bob, codes "Port = 656") ∷ []);
}

-- At first the network fails, then the server answers.
abbrev attempts : List Attempt
attempts =
    (record { system = calm; post = λ box. none; random = some nonce; cancelled = false })
    ∷ (record {
      system = calm;
      post = λ box. some (200, some (nonce ++ codes "hosts"));
      random = some nonce;
      cancelled = false;
    })
    ∷ []
