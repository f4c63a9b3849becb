-- ===== src/Discovery/Peers/Agree.antt =====
-- Two nodes that ask one another for their tables, by client.go and server.go of tincd/discovery.
use tinc_boot.Prelude.{
  ◌≡◌, refl, sym, subst, ◌∙◌, ap, List, [], Option, none, some, In, All, inl, inr, ◌⊎◌, arith, true,
  false, Bool-cases, Option-cases, All-of_In, All-In,
}
use tinc_boot.Text.{Text, equal}
use tinc_boot.Config.Types.{Main}
use tinc_boot.Daemon.Disk.{Disk, calm}
use tinc_boot.Daemon.Hosts.{ok, err, host}
use tinc_boot.Daemon.Hosts.Add.{added}
use tinc_boot.Boot.Exchange.Imports.{Ready}
use tinc_boot.Discovery.Ssd.{Entity, Ssd, header, store, can_be_merged}
use tinc_boot.Discovery.Ssd.Versions.{known, known-store, AtLeast, Grows}
use tinc_boot.Discovery.Ssd.Keyed.{IsKeyed, store-IsKeyed}
use tinc_boot.Discovery.Ssd.Converge.{refused-AtLeast, same_entity}
use tinc_boot.Discovery.Ssd.Storage.{Json, Files, marshal}
use tinc_boot.Discovery.Client.{Network, Visit, fetch_headers, fetch_content}
use tinc_boot.Discovery.Client.CatchUp.{IsKept, IsFitEntity, Answers, run_rounds-catch_up}
use tinc_boot.Discovery.Client.Loop.{run_rounds-Grows}
use tinc_boot.Discovery.Client.Kept.{run_rounds-keeps}
use tinc_boot.Discovery.Server.{get_headers}
use tinc_boot.Discovery.Server.Serving.{fetch-served}
use tinc_boot.Discovery.Peers.{Peer, IsServable, IsOpen, Serves, Attends, learn}
use tinc_boot.Discovery.Peers.Tables.{
  header-known, known-header, header-store, host-added, host-added_self,
}

-- The file that a node has of an entity's host.
content_of : Disk → Entity → Text
content_of disk e = elim (host calm e.name disk) [ ok content ↦ content | err _ ↦ [] ]

content_of-host :
    (disk : Disk) (e : Entity) (content : Text)
    → host calm e.name disk ≡ ok content
    → content_of disk e ≡ content
unfolding content_of
content_of-host disk e content h = rw (h, content_of)

-- A table whose entities can be passed on, each of them known to one of two nodes before.
record Learnt (q p : Peer) (ssd : Ssd) (disk : Disk) : Type 0 where
  keyed : IsKeyed ssd
  servable : (e : Entity) → In e (header ssd) → IsServable disk e
  origin :
      (name : Text) (e : Entity)
      → known ssd name ≡ some e
      → (known q.ssd name ≡ some e) ⊎ In e (header p.ssd)

module _ (json : Json) (address : Text) (get : Network) (p : Peer) (open_p : IsOpen p)
    (serves : Serves json p address get) where
  fetched : fetch_headers json get address ≡ some (header p.ssd)
  unfolding fetch_headers get_headers marshal
  fetched = rw (serves.headers, fetch_headers) (json.decode-encode (header p.ssd))

  answered :
      (e : Entity)
      → In e (header p.ssd)
      → fetch_content get address e ≡ some (content_of p.disk e, e)
  answered e i =
      let s = open_p.servable e i in
      let (clean, ne, _) = s.fit in
      (fetch-served json calm p.ssd p.disk get address e s.content serves.headers (serves.one e i)
          clean ne (header-known p.ssd e open_p.keyed i) s.asked s.fits s.readable).1
        e.version
      ∙ ap (λ c. some (c, e)) (sym (content_of-host p.disk e s.content s.readable))

  served-Answers : Answers get address (content_of p.disk) (header p.ssd)
  served-Answers =
      All-of_In (λ e. fetch_content get address e ≡ some (content_of p.disk e, e)) (header p.ssd)
        answered

  served-fit : All IsFitEntity (header p.ssd)
  served-fit = All-of_In IsFitEntity (header p.ssd) (λ e i. (open_p.servable e i).fit)

  merged-IsServable :
      (ssd : Ssd) (disk : Disk) (e : Entity) (m : Main) (r : Ready disk)
      → In e (header p.ssd)
      → IsKeyed (store ssd e)
      → ((x : Entity) → In x (header ssd) → IsServable disk x)
      → (x : Entity) → In x (header (store ssd e))
      → IsServable (added e.name (content_of p.disk e) m r.entries disk) x
  merged-IsServable ssd disk e m r i k old x j = elim (header-store ssd e x k j) [
    | inl same ↦
        let s = open_p.servable e i in
        subst (IsServable (added e.name (content_of p.disk e) m r.entries disk)) same (record {
          fit = s.fit;
          asked = s.asked;
          fits = s.fits;
          content = content_of p.disk e;
          readable = host-added_self e.name (content_of p.disk e) m disk r s.fit.0;
        })
    | inr (there, other) ↦
        let s = old x there in
        record {
          fit = s.fit;
          asked = s.asked;
          fits = s.fits;
          content = s.content;
          readable = host-added e.name x.name (content_of p.disk e) m disk r other ∙ s.readable;
        }
  ]

  merged-Learnt :
      (q : Peer) (ssd : Ssd) (disk : Disk) (e : Entity) (m : Main) (r : Ready disk)
      → In e (header p.ssd)
      → can_be_merged ssd e ≡ true
      → Learnt q p ssd disk
      → Learnt q p (store ssd e) (added e.name (content_of p.disk e) m r.entries disk)
  merged-Learnt q ssd disk e m r i newer l =
      let k = store-IsKeyed ssd e l.keyed in
      record {
        keyed = k;
        servable = merged-IsServable ssd disk e m r i k l.servable;
        origin = λ name x h. elim (Bool-cases (equal e.name name)) [
          | inl same ↦
              inr (subst (λ y. In y (header p.ssd)) (ground (arith, known-store ssd e name)) i)
          | inr other ↦ l.origin name x (ground (arith, known-store ssd e name))
        ];
      }

  -- What a node has after its rounds at the other: nothing of the other's table is missing.
  caught_up :
      (q : Peer) (visits : List Visit) (files : Files)
      → IsOpen q
      → Attends p get visits
      → (name : Text)
      → Grows (known p.ssd name) (known (learn json address visits files q).ssd name)
  unfolding learn
  caught_up q visits files o a name = elim (Option-cases (known p.ssd name)) [
    | inl e ↦ rw e tt
    | inr (e, there) ↦
        let i = known-header p.ssd name e there in
        let l = (learn json address visits files q).ssd in
        rw there (
          subst (λ n. AtLeast e.version (known l n)) (open_p.keyed.own_name name e there)
            (refused-AtLeast l e (
              All-In (λ x. can_be_merged l x ≡ false) e (header p.ssd)
                (run_rounds-catch_up get address (content_of p.disk) json (header p.ssd) visits
                  q.ssd q.disk files fetched served-Answers served-fit o.kept a.steady a.enough)
                i)))
  ]

  learn-Learnt :
      (q : Peer) (visits : List Visit) (files : Files)
      → IsOpen q
      → Attends p get visits
      → IsKept (learn json address visits files q).disk
        × Learnt q p
            (learn json address visits files q).ssd
            (learn json address visits files q).disk
  unfolding learn
  learn-Learnt q visits files o a =
      run_rounds-keeps get address (content_of p.disk) json (header p.ssd) (Learnt q p) visits q.ssd
        q.disk files (merged-Learnt q) fetched served-Answers served-fit a.steady o.kept
        (record { keyed = o.keyed; servable = o.servable; origin = λ name e h. inl h })

  pub learn-IsOpen :
      (q : Peer) (visits : List Visit) (files : Files)
      → IsOpen q
      → Attends p get visits
      → IsOpen (learn json address visits files q)
  learn-IsOpen q visits files o a =
      let (kept, l) = learn-Learnt q visits files o a in
      record { keyed = l.keyed; servable = l.servable; kept = kept }

learn-Grows :
    (json : Json) (address : Text) (visits : List Visit) (files : Files) (q : Peer) (name : Text)
    → Grows (known q.ssd name) (known (learn json address visits files q).ssd name)
unfolding learn
learn-Grows json address visits files q name =
    run_rounds-Grows json address visits q.ssd q.disk files name

-- Where what the first table knows of a name is no older than what the third knew, and the second has
-- caught up with the first and got its entries from these two, the first and the second agree.
agree :
    (name : Text) (first second third : Option Entity)
    → ((e : Entity) → first ≡ some e → e.name ≡ name)
    → ((e : Entity) → second ≡ some e → e.name ≡ name)
    → Grows third first
    → Grows first second
    → ((e : Entity) → second ≡ some e → (third ≡ some e) ⊎ (first ≡ some e))
    → first ≡ second
agree name none none third n m old new from = refl
agree name none (some f) third n m old new from = elim (from f refl) [
  | inl e ↦ absurd (subst (λ o. Grows o none) e old)
  | inr e ↦ e
]
agree name (some e) none third n m old new from = absurd new
agree name (some e) (some f) third n m old new from = elim (from f refl) [
  | inl h ↦
      ap some
        (same_entity e f (n e refl ∙ sym (m f refl)) new (subst (λ o. Grows o (some e)) h old))
  | inr h ↦ h
]

-- Two nodes whose tables are keyed by name and that can serve every entity of theirs (a clean name of 1
-- to 59999 bytes, a version from 0 on that fits 64 bits, a file of the host that is there), on
-- directories that the program wrote, on which no call fails: the second asks the first for at least as
-- many rounds as the first knows entities, and then the first asks the second in the same way. After
-- that both know the same entity under every name, no older than what either of them knew, and both can
-- again serve all that they know.
pub learn-agrees :
    (json : Json) (at_p at_q : Text) (get_p get_q : Network) (p q : Peer)
    (visits_q visits_p : List Visit) (files_q files_p : Files) (name : Text)
    → IsOpen p
    → IsOpen q
    → Serves json p at_p get_p
    → Attends p get_p visits_q
    → Serves json (learn json at_p visits_q files_q q) at_q get_q
    → Attends (learn json at_p visits_q files_q q) get_q visits_p
    → (known (learn json at_p visits_q files_q q).ssd name
        ≡ known (learn json at_q visits_p files_p p).ssd name)
      × Grows (known p.ssd name) (known (learn json at_p visits_q files_q q).ssd name)
      × Grows (known q.ssd name) (known (learn json at_p visits_q files_q q).ssd name)
      × IsOpen (learn json at_p visits_q files_q q)
      × IsOpen (learn json at_q visits_p files_p p)
learn-agrees json at_p at_q get_p get_q p q visits_q visits_p files_q files_p name open_p open_q
      serves_p attends_p serves_q attends_q =
    let q' = learn json at_p visits_q files_q q in
    let p' = learn json at_q visits_p files_p p in
    let open_q' =
      learn-IsOpen json at_p get_p p open_p serves_p q visits_q files_q open_q attends_p in
    let open_p' =
      learn-IsOpen json at_q get_q q' open_q' serves_q p visits_p files_p open_p attends_q in
    let (_, learnt) =
      learn-Learnt json at_q get_q q' open_q' serves_q p visits_p files_p open_p attends_q in
    let got_p =
      caught_up json at_p get_p p open_p serves_p q visits_q files_q open_q attends_p name in
    (
      agree name (known q'.ssd name) (known p'.ssd name) (known p.ssd name)
          (open_q'.keyed.own_name name) (open_p'.keyed.own_name name) got_p
          (caught_up json at_q get_q q' open_q' serves_q p visits_p files_p open_p attends_q name)
          (λ e h. elim (learnt.origin name e h) [
            | inl old ↦ inl old
            | inr i ↦ inr (
                subst (λ n. known q'.ssd n ≡ some e) (open_p'.keyed.own_name name e h)
                  (header-known q'.ssd e open_q'.keyed i))
          ]),
      got_p,
      learn-Grows json at_p visits_q files_q q name,
      open_q',
      open_p',
    )
