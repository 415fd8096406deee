-- ===== src/Trees/Linked.antt =====
-- The links of a tree: parents and children name each other, the root has no parent, and every
-- status message leads back to its node. Changes of a node's state keep the links.
use mathlib.Core.Option
use mathlib.Core.Option.{some-injective}
use mathlib.Core.Path.{subst}
use claude_chakra.Prelude.{
  ℕ, ◌≡◌, refl, sym, ◌∙◌, ap, inl, inr, true, Option, none, some, List, [], ◌∷◌, if◌then◌else◌,
  Text, text_eq, text_eq_sound, Bool-cases, Option-cases, get_key, get_key-set_key,
}
use claude_chakra.Trees.Queue.{contains}
use claude_chakra.Trees.Node.{MessageState, MessageNode}
use claude_chakra.Trees.Tree.{
  MessageTree, update, update_in, update_state, with_state, drain, failed_at,
  drain_queue_and_mark_cancelled,
}

abbrev pub Nodes : Type 0
Nodes = List (Text × MessageNode)

-- What a node found under `id` has to satisfy in a dictionary of nodes.
pub record IsPlaced (nodes : Nodes) (status : List (Text × Text)) (id : Text) (n : MessageNode)
    : Type 0 where
  pub keyed : n.node_id ≡ id
  pub up :
      (p : Text)
      → n.parent_id ≡ some p
      → (m : MessageNode) × (get_key p nodes ≡ some m) × (contains id m.children_ids ≡ true)
  pub down :
      (c : Text)
      → contains c n.children_ids ≡ true
      → (m : MessageNode) × (get_key c nodes ≡ some m) × (m.parent_id ≡ some id)
  pub indexed : get_key n.status_message_id status ≡ some id

pub record IsLinked (t : MessageTree) : Type 0 where
  pub placed :
      (id : Text) (n : MessageNode)
      → get_key id t.nodes ≡ some n
      → IsPlaced t.nodes t.status_to_node id n
  pub root : (r : MessageNode) × (get_key t.root_id t.nodes ≡ some r) × (r.parent_id ≡ none)

-- What a change of one node leaves under every id.
pub get_key-update :
    (id x : Text) (f : MessageNode → MessageNode) (nodes : Nodes)
    → get_key x (update id f nodes)
      ≡ (if text_eq id x then Option.map f (get_key x nodes) else get_key x nodes)
unfolding update update_in
get_key-update id x f nodes = elim (Option-cases (get_key id nodes)) [
  | inl missing ↦
      rw (missing, update_in)
        (elim (Bool-cases (text_eq id x)) [
          | inl same ↦
              let here = ap (λ k. get_key k nodes) (sym (text_eq_sound id x same)) ∙ missing in
              rw same (rw here refl)
          | inr apart ↦ rw apart refl
        ])
  | inr (n, found) ↦
      rw (found, update_in)
        (get_key-set_key id x (f n) nodes ∙ elim (Bool-cases (text_eq id x)) [
          | inl same ↦
              let here = ap (λ k. get_key k nodes) (sym (text_eq_sound id x same)) ∙ found in
              rw same (rw here refl)
          | inr apart ↦ rw apart refl
        ])
]

-- Two versions of a node with the same id, the same links and the same status message.
pub record HaveSameLinks (m n : MessageNode) : Type 0 where
  pub id : n.node_id ≡ m.node_id
  pub parent : n.parent_id ≡ m.parent_id
  pub children : n.children_ids ≡ m.children_ids
  pub status : n.status_message_id ≡ m.status_message_id

pub Related : Option MessageNode → Option MessageNode → Type 0
Related none none = Unit
Related (some m) (some n) = HaveSameLinks m n
Related _ _ = ⊥

-- The same ids are there, with the same links.
unfoldable pub AreRelated : Nodes → Nodes → Type 0
AreRelated old new = (x : Text) → Related (get_key x old) (get_key x new)

Related-forward :
    (o o' : Option MessageNode) (m : MessageNode)
    → Related o o'
    → o ≡ some m
    → (n : MessageNode) × (o' ≡ some n) × HaveSameLinks m n
unfolding Related
Related-forward (some a) (some b) m r e =
    (b, refl, subst (λ z. HaveSameLinks z b) (some-injective _ _ e) r)
Related-forward (some a) none m r e = absurd r
Related-forward none o' m r e = cc

pub Related-back :
    (o o' : Option MessageNode) (n : MessageNode)
    → Related o o'
    → o' ≡ some n
    → (m : MessageNode) × (o ≡ some m) × HaveSameLinks m n
unfolding Related
Related-back (some a) (some b) n r e =
    (a, refl, subst (λ z. HaveSameLinks a z) (some-injective _ _ e) r)
Related-back none (some b) n r e = absurd r
Related-back o none n r e = cc

Related-refl : (o : Option MessageNode) → Related o o
unfolding Related
Related-refl none = tt
Related-refl (some m) = record { id = refl; parent = refl; children = refl; status = refl }

Related-trans : (a b c : Option MessageNode) → Related a b → Related b c → Related a c
unfolding Related
Related-trans none none none r s = tt
Related-trans (some a) (some b) (some c) r s = record {
  id = s.id ∙ r.id;
  parent = s.parent ∙ r.parent;
  children = s.children ∙ r.children;
  status = s.status ∙ r.status;
}
Related-trans (some a) none c r s = absurd r
Related-trans none (some b) c r s = absurd r
Related-trans a (some b) none r s = absurd s
Related-trans a none (some c) r s = absurd s

Related-map :
    (f : MessageNode → MessageNode) (o : Option MessageNode)
    → ((n : MessageNode) → HaveSameLinks n (f n))
    → Related o (Option.map f o)
unfolding Related
Related-map f none keeps = tt
Related-map f (some n) keeps = keeps n

pub update-AreRelated :
    (id : Text) (f : MessageNode → MessageNode) (nodes : Nodes)
    → ((n : MessageNode) → HaveSameLinks n (f n))
    → AreRelated nodes (update id f nodes)
unfolding AreRelated
update-AreRelated id f nodes keeps x =
    subst (Related (get_key x nodes)) (sym (get_key-update id x f nodes))
      (elim (Bool-cases (text_eq id x)) [
        | inl same ↦ rw same (Related-map f (get_key x nodes) keeps)
        | inr apart ↦ rw apart (Related-refl (get_key x nodes))
      ])

pub drain-AreRelated :
    (now : ℕ) (message : Text) (xs : List Text) (nodes : Nodes)
    → AreRelated nodes (drain now message xs nodes).1
unfolding AreRelated drain
drain-AreRelated now message [] nodes x = Related-refl (get_key x nodes)
drain-AreRelated now message (y ∷ xs) nodes x =
    let marked = update y (failed_at now message) nodes in
    let first =
      update-AreRelated y (failed_at now message) nodes
        (λ n. record { id = refl; parent = refl; children = refl; status = refl }) in
    Related-trans _ _ _ (first x) (drain-AreRelated now message xs marked x)

-- Related nodes are linked alike.
pub IsLinked-related :
    (t : MessageTree) (nodes : Nodes)
    → AreRelated t.nodes nodes
    → IsLinked t
    → IsLinked (record t { nodes = nodes })
unfolding AreRelated
IsLinked-related t nodes related h = record {
  placed = λ id n e.
      let (m, e', links) = Related-back _ _ n (related id) e in
      let place = h.placed id m e' in
      record {
        keyed = links.id ∙ place.keyed;
        up = λ p at.
            let (a, found, child) = place.up p (sym links.parent ∙ at) in
            let (b, there, same) = Related-forward _ _ a (related p) found in
            (b, there, ap (contains id) same.children ∙ child);
        down = λ c at.
            let (a, found, parent) = place.down c (ap (contains c) (sym links.children) ∙ at) in
            let (b, there, same) = Related-forward _ _ a (related c) found in
            (b, there, same.parent ∙ parent);
        indexed = ap (λ s. get_key s t.status_to_node) links.status ∙ place.indexed;
      };
  root =
      let (a, found, parent) = h.root in
      let (b, there, same) = Related-forward _ _ a (related t.root_id) found in
      (b, there, same.parent ∙ parent);
}

-- A change of a node's state keeps a tree linked.
pub update_state-IsLinked :
    (now : ℕ) (id : Text) (state : MessageState) (session_id error_message : Option Text)
    (t : MessageTree)
    → IsLinked t
    → IsLinked (update_state now id state session_id error_message t)
unfolding update_state with_state
update_state-IsLinked now id state session_id error_message t h =
    IsLinked-related t _
      (update-AreRelated id (with_state now state session_id error_message) t.nodes
        (λ n. record { id = refl; parent = refl; children = refl; status = refl }))
      h

-- The cancellation of all that waits keeps a tree linked.
pub drain-IsLinked :
    (now : ℕ) (message : Text) (t : MessageTree)
    → IsLinked t
    → IsLinked (drain_queue_and_mark_cancelled now message t).1
unfolding drain_queue_and_mark_cancelled
drain-IsLinked now message t h =
    let s = IsLinked-related t _ (drain-AreRelated now message t.queue.deque t.nodes) h in
    record { placed = s.placed; root = s.root }
