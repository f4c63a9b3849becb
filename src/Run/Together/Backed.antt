-- ===== src/Run/Together/Backed.antt =====
-- Every node that the table of a running node knows has its host's file.
use tinc_boot.Prelude.{
  ◌≡◌, refl, sym, subst, ◌∙◌, Bool, true, false, Option, none, some, In, ◌⊎◌, inl, inr, arith,
  Bool-cases,
}
use tinc_boot.Prelude.Int.{pos, ◌<ℤ◌}
use tinc_boot.Text.{Text, equal, equal_iff}
use tinc_boot.Numbers.{format_int}
use tinc_boot.Daemon.Disk.{Disk, Env, calm}
use tinc_boot.Daemon.Hosts.{HostError, add_host}
use tinc_boot.Daemon.Hosts.Filed.{IsFiled, add_host-IsFiled, add_host-files, host-IsFiled}
use tinc_boot.Discovery.Ssd.{Entity, Ssd, get_after, replace_if_newer, can_be_merged, run_block}
use tinc_boot.Discovery.Ssd.Versions.{known, set_known, replace_if_newer_lem}
use tinc_boot.Discovery.Client.{save_host, accepted}
use tinc_boot.Discovery.Server.{get_one, asked_version}
use tinc_boot.Discovery.Server.Serving.{asked_name-name}
use tinc_boot.Run.Start.{on_exchanged, on_joined, restore}
use tinc_boot.Run.Together.{
  Shared, Step, merge, add, add_fails, exchanged, joined, Reach, here, next,
}

pub record IsBacked (s : Shared) : Type 0 where
  pub known_filed : (name : Text) (e : Entity) → known s.ssd name ≡ some e → IsFiled s.disk name
  pub due_filed : (name : Text) → In name s.due → IsFiled s.disk name

-- What a merge leaves under a name stood there before, or was merged with the block's consent.
pub merged-from :
    {W : Type 0} (ssd : Ssd) (info : Entity) (block : Option (W → W × Bool)) (w : W) (name : Text)
    (e : Entity)
    → known (replace_if_newer ssd info block w).0.0 name ≡ some e
    → (known ssd name ≡ some e)
      ⊎ ((info.name ≡ name) × ((replace_if_newer ssd info block w).1 ≡ true))
merged-from ssd info block w name e h =
    let (_, _, after) = replace_if_newer_lem ssd info block w in
    split (replace_if_newer ssd info block w).1 refl (sym (after name) ∙ h)
  where
    split :
        (b : Bool)
        → (replace_if_newer ssd info block w).1 ≡ b
        → set_known b info name (known ssd name) ≡ some e
        → (known ssd name ≡ some e)
          ⊎ ((info.name ≡ name) × ((replace_if_newer ssd info block w).1 ≡ true))
    split false m k = inl k
    split true m k = elim (Bool-cases (equal info.name name)) [
      | inl same ↦ inr ((equal_iff info.name name).0 same, m)
      | inr other ↦ inl (ground arith)
    ]

-- The disk that a requester's merge leaves is the old one, or what `AddHost` left.
merged-disk :
    (system : Env) (ssd : Ssd) (info : Entity) (content : Text) (disk : Disk) (name : Text)
    → IsFiled disk name
    → IsFiled (replace_if_newer ssd info (some (save_host system info.name content)) disk).0.1 name
unfolding run_block save_host
merged-disk system ssd info content disk name f =
    let (_, left, _) =
      replace_if_newer_lem ssd info (some (save_host system info.name content)) disk in
    subst (λ d. IsFiled d name) (sym left)
      (elim (Bool-cases (can_be_merged ssd info)) [
        | inl m ↦ rw m (add_host-IsFiled system info.name content disk name f)
        | inr m ↦ rw m f
      ])

-- Where the merge is reported, the host was added.
merged-files :
    (system : Env) (ssd : Ssd) (info : Entity) (content : Text) (disk : Disk)
    → (replace_if_newer ssd info (some (save_host system info.name content)) disk).1 ≡ true
    → IsFiled
        (replace_if_newer ssd info (some (save_host system info.name content)) disk).0.1
        info.name
unfolding run_block save_host
merged-files system ssd info content disk h =
    let (merged, left, _) =
      replace_if_newer_lem ssd info (some (save_host system info.name content)) disk in
    subst (λ d. IsFiled d info.name) (sym left)
      (elim (Bool-cases (can_be_merged ssd info)) [
        | inl m ↦ rw m (
            add_host-files system info.name content disk
              (consent (add_host system info.name content disk).1 (rw m at (sym merged ∙ h))))
        | inr m ↦ absurd (refused (rw m at (sym merged ∙ h)))
      ])
  where
    consent : (o : Option HostError) → accepted o ≡ true → o ≡ none
    consent none k = refl
    consent (some x) k = cc

    refused : ¬ (false ≡ true)
    refused k = cc

-- A name that is due enters the table at version 0.
due-IsBacked :
    (s : Shared) (name : Text)
    → IsBacked s
    → In name s.due
    → IsBacked (record s { ssd = restore s.ssd name })
unfolding restore
due-IsBacked s name b i = record {
  known_filed = λ other e h.
      elim (merged-from {W = Unit {0}} s.ssd (record { name = name; version = pos 0 }) none tt other
        e h) [
          | inl old ↦ b.known_filed other e old
          | inr (same, _) ↦ subst (IsFiled s.disk) same (b.due_filed name i)
        ];
  due_filed = b.due_filed;
}

Step-IsBacked : {s t : Shared} → Step s t → IsBacked s → IsBacked t
unfolding on_exchanged on_joined restore
Step-IsBacked {s} (merge system info content) b = record {
  known_filed = λ name e h.
      elim (merged-from s.ssd info (some (save_host system info.name content)) s.disk name e h) [
        | inl old ↦ merged-disk system s.ssd info content s.disk name (b.known_filed name e old)
        | inr (same, m) ↦
            subst
              (IsFiled
                (replace_if_newer s.ssd info (some (save_host system info.name content))
                  s.disk).0.1)
              same (merged-files system s.ssd info content s.disk m)
      ];
  due_filed = λ name i. merged-disk system s.ssd info content s.disk name (b.due_filed name i);
}
Step-IsBacked {s} (add system name content h) b = record {
  known_filed =
      λ other e k. add_host-IsFiled system name content s.disk other (b.known_filed other e k);
  due_filed = λ other i. elim i [
    | inl same ↦
        subst (IsFiled (add_host system name content s.disk).0) same
          (add_host-files system name content s.disk h)
    | inr old ↦ add_host-IsFiled system name content s.disk other (b.due_filed other old)
  ];
}
Step-IsBacked {s} (add_fails system name content h) b = record {
  known_filed =
      λ other e k. add_host-IsFiled system name content s.disk other (b.known_filed other e k);
  due_filed = λ other i. add_host-IsFiled system name content s.disk other (b.due_filed other i);
}
Step-IsBacked {s} (exchanged json su faults tmp name files i) b = due-IsBacked s name b i
Step-IsBacked {s} (joined json su faults tmp name files i) b = due-IsBacked s name b i

Reach-IsBacked : {s t : Shared} → Reach s t → IsBacked s → IsBacked t
Reach-IsBacked here b = b
Reach-IsBacked (next r st) b = Step-IsBacked st (Reach-IsBacked r b)

get_after-newer :
    (ssd : Ssd) (name after : Text) (e : Entity)
    → known ssd name ≡ some e
    → asked_version after <ℤ e.version
    → get_after ssd name (asked_version after) ≡ some e
unfolding get_after
get_after-newer ssd name after e k v = rw (k, get_after) (ground arith)

-- In whatever order a running node's parts take their steps, whatever its peers send, and whatever calls
-- fail: where at first every node that its table knows has a host's file under a clean name, the
-- discovery server, when no call fails for it, answers each request for a node that the table knows at a
-- newer version than the asked one with status 200, the node's name and version, and a file.
pub known-served :
    {s t : Shared} (name after : Text) (e : Entity)
    → IsBacked s
    → Reach s t
    → known t.ssd name ≡ some e
    → asked_version after <ℤ e.version
    → (content : Text) × (get_one calm t.ssd t.disk name after ≡ record {
      status = 200;
      x_name = e.name;
      x_version = format_int e.version;
      body = some content;
    })
unfolding get_one
known-served {t = t} name after e b r k v =
    let f = (Reach-IsBacked r b).known_filed name e k in
    (
      f.content,
      rw (asked_name-name name f.clean, get_one)
          (rw (get_after-newer t.ssd name after e k v)
            (rw (asked_name-name name f.clean) (rw (host-IsFiled t.disk name f)))),
    )
