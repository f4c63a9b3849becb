-- ===== src/Tests/Inputs.antt =====
-- The inputs that the tests share.
use tinc_boot.Prelude.{◌≡◌, ◌<◌, refl, true, false, [], ◌∷◌, some, arith, All, ◌==◌}
use tinc_boot.Text.{Text, codes, equal}
use tinc_boot.Text.Strings.{byte_len, is_space}
use tinc_boot.Text.Strings.Trim.{IsTrimmed-of_spaceless}
use tinc_boot.Dict.{lookup}
use tinc_boot.Names.{IsName, is_enabled}
use tinc_boot.Config.Types.{Main, main_fields}
use tinc_boot.Config.Marshal.{marshal}
use tinc_boot.Config.RoundTrip.{IsWritable}
use tinc_boot.Config.RoundTrip.Pieces.{IsPlain}
use tinc_boot.Daemon.Disk.{Disk, file}
use tinc_boot.Daemon.Hosts.Stored.{Stored}
use tinc_boot.Daemon.Hosts.Add.{IsOpenAt}

abbrev pub alice : Text
alice = codes "alice"

abbrev pub bob : Text
bob = codes "bob"

abbrev pub main : Main
main = record {
  name = alice;
  port = 655;
  local_discovery = true;
  interface = codes "tun0";
  connect_to = codes "carol" ∷ [];
}

abbrev pub disk : Disk
disk = record {
  conf = some (marshal (main_fields main));
  hosts = some ((alice, file (codes "Port = 655")) ∷ []);
}

pub alice-IsName : IsName alice
unfolding is_enabled
alice-IsName = (refl, (refl, (refl, (refl, (refl, tt)))))

pub bob-IsName : IsName bob
unfolding is_enabled
bob-IsName = (refl, (refl, (refl, tt)))

pub bob-short : byte_len bob < 60000
unfolding byte_len
bob-short = omega arith

-- A word without spaces is a plain value.
pub plain_word :
    (t : Text)
    → All (λ c. is_space c ≡ false) t
    → All (λ c. (c == b'\n') ≡ false) t
    → byte_len t < 60000
    → IsPlain t
plain_word t h n s = record { trimmed = IsTrimmed-of_spaceless t h; one_line = n; short = s }

pub main-IsWritable : IsWritable main
unfolding byte_len is_space
main-IsWritable = record {
  name =
      plain_word alice (refl, (refl, (refl, (refl, (refl, tt)))))
        (refl, (refl, (refl, (refl, (refl, tt))))) (omega arith);
  port = omega arith;
  interface =
      plain_word (codes "tun0") (refl, (refl, (refl, (refl, tt))))
        (refl, (refl, (refl, (refl, tt)))) (omega arith);
  connect_to = (
    record {
      plain =
          plain_word (codes "carol") (refl, (refl, (refl, (refl, (refl, tt)))))
            (refl, (refl, (refl, (refl, (refl, tt))))) (omega arith);
      not_empty = λ e. cc;
    },
    tt,
  );
}

pub disk-Stored : Stored main disk
disk-Stored = record { content = refl; writable = main-IsWritable }

pub bob-IsOpenAt : IsOpenAt bob disk
unfolding lookup equal
bob-IsOpenAt = record {
  entries = (alice, file (codes "Port = 655")) ∷ [];
  is_there = refl;
  no_directory = λ e. cc;
}
