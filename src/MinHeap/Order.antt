-- ===== src/MinHeap/Order.antt =====
-- The order of the heap, the agreement of the stored indices with the slots, and a heap with a hole.
use tcpframe.Prelude.{
  ℕ, ◌≤◌, ◌<◌, ◌≡◌, ◌≢◌, ◌↔◌, ◌∙◌, ap, none, some, ◌==◌, if◌then◌else◌, update, arith, ltb, done,
}
use tcpframe.Time.Laws.{usecs, IsNormal, timercmp_gt-ltb}
use tcpframe.MinHeap.{
  null, TimeoutEvent, MinHeap, load, store, with_index, set_index, node_cmp_greater, place, move,
  parent,
}

-- The deadline of a node, in microseconds.
abbrev pub rank : MinHeap → ℕ → ℕ
rank h p = usecs (h.nodes p).timeout

-- The node stands in one of the first `n` places.
abbrev pub Stands : ℕ → (ℕ → ℕ) → ℕ → Type 0
Stands n f p = (i : ℕ) × (i < n) × (f i ≡ p)

abbrev pub Same : ℕ → (ℕ → ℕ) → (ℕ → ℕ) → Type 0
Same n f g = (p : ℕ) → Stands n f p ↔ Stands n g p

-- The node without its index.
abbrev pub strip : TimeoutEvent → TimeoutEvent
strip t = record t { heap_index = none }

-- The first `n` slots are a heap: each parent is due no later than its child, and each node knows
-- its slot.
pub record IsHeap (n : ℕ) (h : MinHeap) : Type 0 where
  pub fits : n ≤ h.node_capacity
  pub nonnull : (i : ℕ) → i < n → h.slots i ≢ null
  pub order : (c : ℕ) → 0 < c → c < n → rank h (h.slots (parent c)) ≤ rank h (h.slots c)
  pub index : (i : ℕ) → i < n → (h.nodes (h.slots i)).heap_index ≡ some i
  pub normal : (p : ℕ) → IsNormal (h.nodes p).timeout

abbrev pub IsValid : MinHeap → Type 0
IsValid h = IsHeap h.node_used h

-- The node is one of the heap's.
abbrev pub Holds : MinHeap → ℕ → Type 0
Holds h p = Stands h.node_used h.slots p

-- The slots as they will be once `e` enters the hole.
abbrev pub view : MinHeap → ℕ → ℕ → ℕ → ℕ
view h hole e i = if hole == i then e else h.slots i

-- Everything but the order: `e` is still to be placed.
pub record HasHole (n : ℕ) (h : MinHeap) (hole e : ℕ) : Type 0 where
  pub fits : n ≤ h.node_capacity
  pub inside : hole < n
  pub solid : e ≢ null
  pub nonnull : (i : ℕ) → i < n → i ≢ hole → h.slots i ≢ null
  pub index : (i : ℕ) → i < n → i ≢ hole → (h.nodes (h.slots i)).heap_index ≡ some i
  pub fresh : (i : ℕ) → i < n → i ≢ hole → h.slots i ≢ e
  pub normal : (p : ℕ) → IsNormal (h.nodes p).timeout

-- What a sift leaves of the state it began with: the order apart, only indices of nodes that
-- stand in the heap have changed.
pub record Kept (n : ℕ) (h : MinHeap) (f : ℕ → ℕ) (h' : MinHeap) (f' : ℕ → ℕ) : Type 0 where
  pub used : h'.node_used ≡ h.node_used
  pub capacity : h'.node_capacity ≡ h.node_capacity
  pub pid : h'.cur_pid ≡ h.cur_pid
  pub nodes : (p : ℕ) → strip (h'.nodes p) ≡ strip (h.nodes p)
  pub others : (p : ℕ) → ¬ Stands n f p → h'.nodes p ≡ h.nodes p
  pub same : Same n f f'

pub rank-strip :
    (h h' : MinHeap) (p : ℕ) → strip (h'.nodes p) ≡ strip (h.nodes p) → rank h' p ≡ rank h p
rank-strip h h' p e = ap (λ t. usecs (t.timeout)) e

abbrev pub moved : MinHeap → ℕ → ℕ → MinHeap
moved h hole from =
    with_index (record h { slots = update h.slots hole (h.slots from) }) (h.slots from) (some hole)

abbrev pub placed : MinHeap → ℕ → ℕ → MinHeap
placed h hole e = with_index (record h { slots = update h.slots hole e }) e (some hole)

pub load-done : (h : MinHeap) (i : ℕ) → i < h.node_capacity → load h i ≡ done (h.slots i)
unfolding load
load-done h i p = ground arith

pub cmp-done :
    (h : MinHeap) (p q : ℕ)
    → p ≢ null
    → q ≢ null
    → ((x : ℕ) → IsNormal (h.nodes x).timeout)
    → node_cmp_greater h p q ≡ done (ltb (rank h q) (rank h p))
unfolding node_cmp_greater
cmp-done h p q a b normal =
    ground (arith, timercmp_gt-ltb (h.nodes p).timeout (h.nodes q).timeout (normal p) (normal q))

pub move-done :
    (h : MinHeap) (hole from : ℕ)
    → hole < h.node_capacity
    → from < h.node_capacity
    → h.slots from ≢ null
    → move h hole from ≡ done (moved h hole from)
unfolding move store set_index
move-done h hole from a b c = rw (load-done h from b) (ground arith)

pub place-done :
    (h : MinHeap) (hole e : ℕ)
    → hole < h.node_capacity
    → e ≢ null
    → place h hole e ≡ done (placed h hole e)
unfolding place store set_index
place-done h hole e a c = ground arith

pub Same-trans : (n : ℕ) (f g k : ℕ → ℕ) → Same n f g → Same n g k → Same n f k
Same-trans n f g k a b p = (λ s. (b p).0 ((a p).0 s), λ s. (a p).1 ((b p).1 s))

pub Kept-trans :
    (n : ℕ) (h h' h'' : MinHeap) (f f' f'' : ℕ → ℕ)
    → Kept n h f h' f'
    → Kept n h' f' h'' f''
    → Kept n h f h'' f''
Kept-trans n h h' h'' f f' f'' a b = record {
  used = b.used ∙ a.used;
  capacity = b.capacity ∙ a.capacity;
  pid = b.pid ∙ a.pid;
  nodes = λ p. b.nodes p ∙ a.nodes p;
  others = λ p out. b.others p (λ s. out ((a.same p).1 s)) ∙ a.others p out;
  same = Same-trans n f f' f'' a.same b.same;
}

-- The count and the capacity of the array are no part of the order.
pub IsHeap-recount :
    (h : MinHeap) (n m used capacity : ℕ)
    → m ≡ n
    → m ≤ capacity
    → IsHeap n h
    → IsHeap m (record h { node_used = used; node_capacity = capacity })
IsHeap-recount h n m used capacity e le v = record {
  fits = le;
  nonnull = λ i p. v.nonnull i (omega arith);
  order = λ c p q. v.order c p (omega arith);
  index = λ i p. v.index i (omega arith);
  normal = v.normal;
}
