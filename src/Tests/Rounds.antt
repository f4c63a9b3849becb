-- ===== src/Tests/Rounds.antt =====
-- A round at a peer that knows a node.
use tinc_boot.Prelude.{◌≡◌, refl, false, [], ◌∷◌, List, some, All, arith, if◌then◌else◌}
use tinc_boot.Prelude.Int.{pos}
use tinc_boot.Text.{Text, codes, equal}
use tinc_boot.Numbers.{parse_int}
use tinc_boot.Daemon.Disk.{calm}
use tinc_boot.Discovery.Ssd.{Entity, new_ssd, can_be_merged}
use tinc_boot.Discovery.Ssd.Storage.{no_faults}
use tinc_boot.Discovery.Client.{
  Network, Visit, hosts_url, host_url, read_content, fetch_content, fetch_headers, run_rounds,
}
use tinc_boot.Discovery.Client.CatchUp.{IsKept, IsFitEntity, Answers, run_rounds-catch_up}
use tinc_boot.Tests.Inputs.{bob, main, disk, bob-IsName, bob-short, disk-Stored}
use tinc_boot.Tests.Tables.{json}
use tinc_boot.Tests.Joining.{disk-Ready}

abbrev address : Text
address = codes "10.0.0.2:18655"

abbrev of_bob : Entity
of_bob = record { name = bob; version = pos 7 }

abbrev peers : List Entity
peers = of_bob ∷ []

abbrev content : Entity → Text
content e = codes "Port = 656"

abbrev get : Network
get url =
    if equal url (hosts_url address)
    then some
        (record { status = 200; x_name = []; x_version = []; body = some (json.encode peers) })
    else some (record {
      status = 200;
      x_name = bob;
      x_version = codes "7";
      body = some (codes "Port = 656");
    })

abbrev visit : Visit
visit = record { system = calm; faults = no_faults; tmp = codes "tmp"; get = get }

listed : fetch_headers json get address ≡ some peers
unfolding fetch_headers hosts_url equal
listed = refl

bob-Answers : Answers get address content peers
unfolding fetch_content host_url hosts_url equal read_content parse_int
bob-Answers = (refl, tt)

bob-IsFitEntity : IsFitEntity of_bob
bob-IsFitEntity = (bob-IsName, (λ e. cc), bob-short)

disk-IsKept : IsKept disk
disk-IsKept = (main, disk-Stored, disk-Ready)

catch_up_example :
    All
      (λ e.
        can_be_merged (run_rounds json address (visit ∷ []) (new_ssd (codes "clock")) disk []).0 e
        ≡ false)
      peers
catch_up_example =
    run_rounds-catch_up get address content json peers (visit ∷ []) (new_ssd (codes "clock")) disk
      [] listed bob-Answers (bob-IsFitEntity, tt) disk-IsKept ((refl, refl), tt) (omega arith)
