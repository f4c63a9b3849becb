-- ===== src/Tests/Booting.antt =====
-- A boot node and a new node at small inputs.
use tinc_boot.Prelude.{
  ◌-◌, ◌≡◌, ◌≢◌, refl, ap, ◌∙◌, true, false, [], ◌∷◌, ◌++◌, none, some, take, drop, length,
  length-append, arith, In, inl, inr,
}
use tinc_boot.Prelude.Int.{pos}
use tinc_boot.Text.{Text, codes, equal}
use tinc_boot.Text.Strings.{contains, has_prefix}
use tinc_boot.Dict.{Dict, lookup, insert}
use tinc_boot.Daemon.Disk.{Disk, Item, file, directory, calm, whole}
use tinc_boot.Boot.Token.{Bytes, nonce_size}
use tinc_boot.Boot.Token.Sealed.{take-append}
use tinc_boot.Generator.{Draws}
use tinc_boot.Generator.Addresses.{IsIntn}
use tinc_boot.Bootstrap.Cipher.{Cipher, IsCipher}
use tinc_boot.Bootstrap.Handler.{handle}
use tinc_boot.Bootstrap.Handler.Keeps.{Keeps, handle-Keeps}
use tinc_boot.Bootstrap.Gen.{Cmd, Machine, Folder, Post}
use tinc_boot.Bootstrap.Gen.Requests.{draw_bytes, request_url, boot}
use tinc_boot.Bootstrap.Gen.Execute.{Failure, execute}
use tinc_boot.Bootstrap.Gen.Execute.Prefixes.{execute-slash}
use tinc_boot.Bootstrap.Meeting.{response_of, disk_of, boot-handle}
use tinc_boot.Tests.Inputs.{alice, bob, bob-IsName}

-- A cipher that changes nothing.
abbrev pub cipher : Cipher
cipher = record {
  sum256 = λ token. token;
  new_x = λ key. true;
  seal = λ key nonce plain additional. plain;
  unseal = λ key nonce box additional. some box;
  hex_encode = λ bytes. bytes;
  hex_decode = λ text. some text;
}

cipher-IsCipher : IsCipher cipher
cipher-IsCipher = record {
  accepts = λ token. refl;
  opens = λ key nonce plain additional h. refl;
  decodes = λ bytes. refl;
}

abbrev token : Text
token = codes "secret"

abbrev boot_hosts : Dict Item
boot_hosts = (alice, file (codes "Port = 655")) ∷ []

abbrev boot_disk : Disk
boot_disk = record { conf = none; hosts = some boot_hosts }

handle_example : Keeps boot_disk (handle cipher calm alice token [] bob none boot_disk).0
handle_example = handle-Keeps cipher calm alice token [] bob none boot_disk

-- What stands between `http://b/` and `/bob`.
unfoldable pub nonce_of : Text → Bytes
nonce_of url = let rest = drop 9 url in take (length rest - 4) rest

nonce_of-tail :
    (nonce : Bytes) → take (length (nonce ++ codes "/bob") - 4) (nonce ++ codes "/bob") ≡ nonce
nonce_of-tail nonce =
    ap (λ k. take k (nonce ++ codes "/bob")) (omega (arith, length-append nonce (codes "/bob")))
    ∙ take-append nonce (codes "/bob")

abbrev url : Text
url = codes "http://b"

nonce_of-request_url : (nonce : Bytes) → nonce_of (request_url cipher nonce bob url) ≡ nonce
unfolding nonce_of request_url contains has_prefix
nonce_of-request_url nonce = nonce_of-tail nonce

-- A network that leads to the boot node.
abbrev post : Post
post address payload =
    some (
      response_of
        (handle cipher calm alice token (nonce_of address) bob (some payload) boot_disk).1)

post-reaches :
    (nonce : Bytes) (payload : Bytes)
    → post (request_url cipher nonce bob url) payload
      ≡ some (response_of (handle cipher calm alice token nonce bob (some payload) boot_disk).1)
post-reaches nonce payload =
    ap (λ n. some (response_of (handle cipher calm alice token n bob (some payload) boot_disk).1))
      (nonce_of-request_url nonce)

abbrev pub draws : Draws
draws i n = 0

abbrev own_hosts : Dict Item
own_hosts = (bob, file (codes "Port = 656")) ∷ []

abbrev nonce : Bytes
nonce = draw_bytes draws 5 nonce_size

bob-there : lookup bob own_hosts ≡ some (file (codes "Port = 656"))
unfolding lookup equal
bob-there = refl

alice-free : lookup alice own_hosts ≢ some directory
unfolding lookup equal
alice-free h = cc

bob-new : lookup bob boot_hosts ≡ none
unfolding lookup equal
bob-new = refl

alice-there : lookup alice boot_hosts ≡ some (file (codes "Port = 655"))
unfolding lookup equal
alice-there = refl

boot-handle_example :
    (boot cipher calm post token bob false (url ∷ []) draws (disk_of (codes "Name = bob") own_hosts)
      ≡ (
        disk_of
            (codes "ConnectTo = alice" ++ b'\n' ∷ codes "Name = bob")
            (insert alice (file (codes "Port = 655")) own_hosts),
        true,
      ))
    × ((handle cipher calm alice token nonce bob (some (codes "Port = 656")) boot_disk).0
        ≡ record { conf = none; hosts = some (insert bob (file (codes "Port = 656")) boot_hosts) })
boot-handle_example =
    boot-handle cipher cipher-IsCipher token bob alice (codes "Port = 656") (codes "Port = 655")
      post draws url [] (codes "Name = bob") own_hosts boot_hosts none bob-IsName (λ e. cc)
      (λ e. cc) bob-there alice-free bob-new alice-there post-reaches

abbrev pub machine : Machine
machine = record {
  hostname = some bob;
  binary = some (codes "/usr/local/bin/tinc-boot");
  draws = draws;
  listen = λ port. some 655;
  copy_fails = false;
  mkdir_fails = λ name. false;
  script_write = λ name. whole;
  chmod_fails = λ name. false;
  keygen = λ disk. (disk, true);
  post = post;
}

-- The flags' defaults, of a first node.
abbrev pub cmd : Cmd
cmd = record {
  network = codes "dnet";
  name = [];
  token = [];
  prefix = codes "172.16.0.0/12";
  mask = pos 16;
  no_gen_key = false;
  port = pos 0;
  connect_to = [];
  public = [];
  standalone = true;
  urls = [];
}

abbrev pub folder : Folder
folder = record { disk = record { conf = none; hosts = none }; scripts = [] }

pub draws-IsIntn : IsIntn draws
unfolding IsIntn
draws-IsIntn i n h = h

slash-there : In b'/' (codes "172.16.0.0/12")
slash-there = inr (inr (inr (inr (inr (inr (inr (inr (inr (inr (inl refl))))))))))

execute-slash_example : (f : Failure) × (execute machine calm cipher cmd folder ≡ (folder, some f))
execute-slash_example = execute-slash machine calm cipher cmd folder draws-IsIntn slash-there
