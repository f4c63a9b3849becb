-- ===== src/Monitor/Service/Pursuit.antt =====
-- The nodes that the service of domain/monitor/service.go watches, over any run of its handlers.
use mathlib.Core.List.{
  Perm, Mem, not-mem-nil, mem-cons_self, mem-cons_of_mem, forall_mem-cons, Pairwise-cons,
}
use mathlib.Core.List.Perm
use tinc_boot.Prelude.{
  ◌≡◌, ◌≢◌, refl, sym, subst, Bool, true, false, not, ◌&&◌, ◌||◌, List, [], ◌∷◌, ◌++◌, arith,
  if◌then◌else◌,
}
use tinc_boot.Text.{Text, equal, equal_iff}
use tinc_boot.Monitor.Nodes.{Node}
use tinc_boot.Monitor.Nodes.Distinct.{IsDistinct}
use tinc_boot.Monitor.Service.{Request, Service, stop_request, mark_fetched}

-- Whether a goroutine fetches the file of a node of the array.
unfoldable pub has_request : Text → List Request → Bool
has_request name [] = false
has_request name (r ∷ rs) = (r.live && equal r.name name) || has_request name rs

-- A node of the array is fetched, or is being fetched, or the service is told to stop; and only a
-- fetched node is public.
unfoldable pub is_pursued : Bool → List Request → Node → Bool
is_pursued cancelled requests n =
    (n.fetched || (cancelled || has_request n.name requests)) && (not n.is_public || n.fetched)

unfoldable pub IsPursued : Bool → List Request → List Node → Type 0
IsPursued c rs nodes = (n : Node) → Mem n nodes → is_pursued c rs n ≡ true

bool_prop : (b : Bool) → IsProp (b ≡ true)
bool_prop b = hlevel

pub nil-IsPursued : (c : Bool) (rs : List Request) → IsPursued c rs []
unfolding IsPursued
nil-IsPursued c rs n m = absurd (not-mem-nil m)

pub cons_iff :
    (c : Bool) (rs : List Request) (x : Node) (nodes : List Node)
    → IsPursued c rs (x ∷ nodes)
    → (is_pursued c rs x ≡ true) × IsPursued c rs nodes
unfolding IsPursued
cons_iff c rs x nodes h = (h x mem-cons_self, λ n m. h n (mem-cons_of_mem x m))

pub cons-IsPursued :
    (c : Bool) (rs : List Request) (x : Node) (nodes : List Node)
    → is_pursued c rs x ≡ true
    → IsPursued c rs nodes
    → IsPursued c rs (x ∷ nodes)
unfolding IsPursued
cons-IsPursued c rs x nodes h k = (forall_mem-cons (λ n. bool_prop (is_pursued c rs n))).1 (h, k)

pub Perm-IsPursued :
    {xs ys : List Node} (c : Bool) (rs : List Request)
    → Perm xs ys
    → IsPursued c rs ys
    → IsPursued c rs xs
unfolding IsPursued
Perm-IsPursued c rs p h n m = h n ((Perm.mem_iff p).0 m)

-- A property of the nodes that another one implies at each of them.
pub weaken :
    (c d : Bool) (rs qs : List Request) (nodes : List Node)
    → ((n : Node) → Mem n nodes → is_pursued c rs n ≡ true → is_pursued d qs n ≡ true)
    → IsPursued c rs nodes
    → IsPursued d qs nodes
unfolding IsPursued
weaken c d rs qs nodes f h n m = f n m (h n m)

pub more_requests :
    (c : Bool) (r : Request) (rs : List Request) (n : Node)
    → is_pursued c rs n ≡ true
    → is_pursued c (r ∷ rs) n ≡ true
unfolding is_pursued has_request
more_requests c r rs n h = ground arith

pub has_request-stop_request :
    (name stopped : Text) (rs : List Request)
    → stopped ≢ name
    → has_request name (stop_request stopped rs) ≡ has_request name rs
unfolding has_request stop_request
has_request-stop_request name stopped [] h = refl
has_request-stop_request name stopped (r ∷ rs) h = ground (
  arith,
  has_request-stop_request name stopped rs,
  equal_iff r.name name,
  equal_iff r.name stopped,
)

has_request-without :
    (name : Text) (others : List Request) (r : Request) (rest : List Request)
    → has_request name (others ++ r ∷ rest)
      ≡ ((r.live && equal r.name name) || has_request name (others ++ rest))
unfolding has_request
has_request-without name [] r rest = refl
has_request-without name (q ∷ others) r rest =
    ground (arith, has_request-without name others r rest)

abbrev marked : Text → Bool → Node → Node
marked name p n = if equal n.name name then record n { fetched = true; is_public = p } else n

marked-name : (name : Text) (p : Bool) (n : Node) → (marked name p n).name ≡ n.name
marked-name name p n = ground arith

apart_prop : (a b : Text) → IsProp (a ≢ b)
apart_prop a b = hlevel

mark_fetched-apart :
    (name : Text) (p : Bool) (a : Text) (nodes : List Node)
    → ((n : Node) → Mem n nodes → a ≢ n.name)
    → (n : Node) → Mem n (mark_fetched name p nodes)
    → a ≢ n.name
unfolding mark_fetched
mark_fetched-apart name p a [] h = λ n m. absurd (not-mem-nil m)
mark_fetched-apart name p a (x ∷ nodes) h = (forall_mem-cons (λ n. apart_prop a n.name)).1 (
  subst (λ t. a ≢ t) (sym (marked-name name p x)) (h x mem-cons_self),
  mark_fetched-apart name p a nodes (λ n m. h n (mem-cons_of_mem x m)),
)

pub mark_fetched-IsDistinct :
    (name : Text) (p : Bool) (nodes : List Node)
    → IsDistinct nodes
    → IsDistinct (mark_fetched name p nodes)
unfolding IsDistinct mark_fetched
mark_fetched-IsDistinct name p [] d = d
mark_fetched-IsDistinct name p (x ∷ nodes) d =
    let (apart, rest) = Pairwise-cons.0 d in
    Pairwise-cons.1 (
      mark_fetched-apart name p (marked name p x).name nodes
          (λ n m. subst (λ t. t ≢ n.name) (sym (marked-name name p x)) (apart n m)),
      mark_fetched-IsDistinct name p nodes rest,
    )

module _ (c : Bool) (others : List Request) (r : Request) (rest : List Request) where
  marked-pursued :
      (p : Bool) (n : Node)
      → is_pursued c (others ++ r ∷ rest) n ≡ true
      → is_pursued c (others ++ rest) (marked r.name p n) ≡ true
  unfolding is_pursued
  marked-pursued p n h = ground (
    arith,
    has_request-without n.name others r rest,
    equal_iff n.name r.name,
    equal_iff r.name n.name,
  )

  pub mark_fetched-IsPursued :
      (p : Bool) (nodes : List Node)
      → IsPursued c (others ++ r ∷ rest) nodes
      → IsPursued c (others ++ rest) (mark_fetched r.name p nodes)
  unfolding mark_fetched
  mark_fetched-IsPursued p [] h = nil-IsPursued c (others ++ rest)
  mark_fetched-IsPursued p (x ∷ nodes) h =
      let (first, more) = cons_iff c (others ++ r ∷ rest) x nodes h in
      cons-IsPursued c (others ++ rest) (marked r.name p x) (mark_fetched r.name p nodes)
        (marked-pursued p x first) (mark_fetched-IsPursued p nodes more)

  -- A goroutine that ends without a file was stopped, or the whole service was.
  pub ended-pursued :
      (n : Node)
      → (r.live && not c) ≡ false
      → is_pursued c (others ++ r ∷ rest) n ≡ true
      → is_pursued c (others ++ rest) n ≡ true
  unfolding is_pursued
  ended-pursued n e h = ground (arith, has_request-without n.name others r rest)

-- The array of nodes has distinct names, and each of its nodes is pursued.
pub record Sound (s : Service) : Type 0 where
  pub distinct : IsDistinct s.nodes
  pub pursued : IsPursued s.cancelled s.requests s.nodes
