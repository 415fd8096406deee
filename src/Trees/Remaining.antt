-- ===== src/Trees/Remaining.antt =====
-- What is left in the dictionaries after the nodes of a list were removed.
use mathlib.Core.Option.{some-injective}
use mathlib.Core.Path.{subst}
use claude_chakra.Prelude.{
  ◌≡◌, refl, sym, ◌∙◌, ap, inl, inr, Bool, true, false, Option, none, some, List, [], ◌∷◌, any,
  if◌then◌else◌, Text, text_eq, text_eq_refl, text_eq_sound, get_key, has_key, delete_key,
  get_key-delete_key, Bool-cases, Option-cases,
}
use claude_chakra.Trees.Queue.{contains}
use claude_chakra.Trees.Node.{MessageNode}
use claude_chakra.Trees.Linked.{Nodes}
use claude_chakra.Trees.Removal.{remove_found, remove_all}

-- Every node is found by its status message.
abbrev pub HasStatuses : Nodes → List (Text × Text) → Type 0
HasStatuses nodes statuses =
    (x : Text) (n : MessageNode)
    → get_key x nodes ≡ some n
    → get_key n.status_message_id statuses ≡ some x

delete-HasStatuses :
    (nid : Text) (n : MessageNode) (nodes : Nodes) (statuses : List (Text × Text))
    → get_key nid nodes ≡ some n
    → HasStatuses nodes statuses
    → HasStatuses (delete_key nid nodes) (delete_key n.status_message_id statuses)
delete-HasStatuses nid n nodes statuses found h x m e = elim (Bool-cases (text_eq nid x)) [
  | inl same ↦ absurd (
      let gone : get_key x (delete_key nid nodes) ≡ none =
        get_key-delete_key nid x nodes ∙ rw same refl in
      let f = sym gone ∙ e in cc)
  | inr apart ↦
      let there : get_key x nodes ≡ some m =
        (let kept : get_key x (delete_key nid nodes) ≡ get_key x nodes =
            get_key-delete_key nid x nodes ∙ rw apart refl in
          sym kept ∙ e) in
      get_key-delete_key n.status_message_id m.status_message_id statuses
      ∙ elim (Bool-cases (text_eq n.status_message_id m.status_message_id)) [
        | inl shared ↦ absurd (
            let s = text_eq_sound n.status_message_id m.status_message_id shared in
            let f = sym (h nid n found) ∙ (ap (λ k. get_key k statuses) s ∙ h x m there) in
            let g : nid ≡ x = some-injective _ _ f in
            let k : text_eq nid x ≡ true = subst (λ y. text_eq nid y ≡ true) g (text_eq_refl nid) in
            let l = sym apart ∙ k in cc)
        | inr other ↦ rw other (h x m there)
      ]
]

both_none : (b : Bool) (o : Option MessageNode) → o ≡ none → (if b then none else o) ≡ none
both_none true o e = refl
both_none false o e = e

-- The removal meets no missing status message; the listed nodes are gone and the others are there.
pub remove_all-HasStatuses :
    (ids : List Text) (nodes : Nodes) (statuses : List (Text × Text))
    → HasStatuses nodes statuses
    → (removed : List MessageNode) × (nodes' : Nodes) × (statuses' : List (Text × Text))
      × (remove_all ids nodes statuses ≡ some (removed, nodes', statuses'))
      × HasStatuses nodes' statuses'
      × ((x : Text) → get_key x nodes' ≡ (if contains x ids then none else get_key x nodes))
unfolding remove_all remove_found has_key contains any
remove_all-HasStatuses [] nodes statuses h = ([], nodes, statuses, refl, h, λ x. refl)
remove_all-HasStatuses (nid ∷ ids) nodes statuses h = elim (Option-cases (get_key nid nodes)) [
  | inl missing ↦
      let (removed, nodes', statuses', e, h', left) = remove_all-HasStatuses ids nodes statuses h in
      (
        removed,
        nodes',
        statuses',
        ap
              (λ o. remove_found o statuses (remove_all ids nodes statuses) (λ m.
                remove_all ids (delete_key nid nodes) (delete_key m.status_message_id statuses)))
              missing
            ∙ e,
        h',
        λ x. left x ∙ elim (Bool-cases (text_eq nid x)) [
          | inl same ↦
              let gone : get_key x nodes ≡ none =
                sym (ap (λ k. get_key k nodes) (text_eq_sound nid x same)) ∙ missing in
              rw same (both_none (contains x ids) (get_key x nodes) gone)
          | inr apart ↦ rw apart refl
        ],
      )
  | inr (n, found) ↦
      let (removed, nodes', statuses', e, h', left) =
        remove_all-HasStatuses ids (delete_key nid nodes) (delete_key n.status_message_id statuses)
          (delete-HasStatuses nid n nodes statuses found h) in
      (
        n ∷ removed,
        nodes',
        statuses',
        ap
              (λ o. remove_found o statuses (remove_all ids nodes statuses) (λ m.
                remove_all ids (delete_key nid nodes) (delete_key m.status_message_id statuses)))
              found
            ∙ rw (h nid n found) (rw e refl),
        h',
        λ x.
            left x
            ∙ (ap (λ o. if contains x ids then none else o) (get_key-delete_key nid x nodes)
                ∙ elim (Bool-cases (text_eq nid x)) [
                  | inl same ↦ rw same (both_none (contains x ids) none refl)
                  | inr apart ↦ rw apart refl
                ]),
      )
]
