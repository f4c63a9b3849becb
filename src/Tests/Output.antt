-- ===== src/Tests/Output.antt =====
-- The daemon's output at small inputs.
use tinc_boot.Prelude.{◌≡◌, refl, true, List, [], ◌∷◌, none, some}
use tinc_boot.Text.{Text, codes}
use tinc_boot.Numbers.{is_digit}
use tinc_boot.Daemon.Disk.{calm}
use tinc_boot.Daemon.Output.{
  is_subnet_added, is_subnet_removed, find_match, match_here, repeat, add_subnet_pattern,
  del_subnet_pattern, is_blank, is_dark, is_not, is_word,
}
use tinc_boot.Daemon.Bus.{Handler}
use tinc_boot.Daemon.Scanner.{Links, is_routed, scanner}
use tinc_boot.Daemon.Scanner.Alternation.{follow, scanner-follow}
use tinc_boot.Discovery.Client.{Visit}
use tinc_boot.Discovery.Ssd.Storage.{no_faults}
use tinc_boot.Tests.Inputs.{bob}

abbrev added_line : Text
added_line = codes "Got ADD_SUBNET from bob (1.2.3.4 port 655): 10 4a1b bob 10.0.0.2#10"

abbrev removed_line : Text
removed_line =
    codes
      "Sending DEL_SUBNET to everyone (BROADCAST): 11 3f17d1ce hubreddecnet_PEN005 6e:6a:5e:26:39:d2#10"

added_line-event :
    is_subnet_added added_line
    ≡ some (record {
      advertising_node = bob;
      advertising_host = codes "1.2.3.4";
      advertising_port = codes "655";
      peer_node = bob;
      peer_subnet = codes "10.0.0.2";
    })
unfolding is_subnet_added find_match match_here repeat add_subnet_pattern is_blank is_dark is_not
    is_word is_digit
added_line-event = refl

removed_line-event :
    is_subnet_removed removed_line
    ≡ some (record {
      peer_node = codes "hubreddecnet_PEN005";
      peer_subnet = codes "6e:6a:5e:26:39:d2";
    })
unfolding is_subnet_removed find_match match_here repeat del_subnet_pattern is_blank is_dark is_not
    is_word is_digit
removed_line-event = refl

abbrev links : Links
links = record { set_address = true; enable_interface = true }

abbrev lines : List Text
lines = added_line ∷ added_line ∷ codes "Ready" ∷ removed_line ∷ []

scanner_example :
    follow (codes "10.0.0.2") (scanner links lines []).1 (some (is_routed [] (codes "10.0.0.2")))
    ≡ some (is_routed (scanner links lines []).0 (codes "10.0.0.2"))
scanner_example = scanner-follow links lines [] (codes "10.0.0.2")

-- A handler that notes the payload.
abbrev note : Handler Text (List Text)
note payload seen = payload ∷ seen

abbrev visit : Visit
visit = record { system = calm; faults = no_faults; tmp = codes "tmp"; get = λ url. none }
