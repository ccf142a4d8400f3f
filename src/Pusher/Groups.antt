-- ===== src/Pusher/Groups.antt =====
-- Who is told by a push.
use mathlib.Core.List.{append_assoc}
use recreation_test.Base.{
  ◌≡◌, refl, sym, ap, ◌∙◌, if◌then◌else◌, List, [], ◌∷◌, ◌++◌, map, Option, none, some, Str, str_eq,
  str_eq_iff, lookup, lookup-insert, string_eq, Bool-cases, inl, inr,
}
use recreation_test.Protocol.Types.{Message}
use recreation_test.Net.Stream.{Msg}
use recreation_test.Net.Clients.Maps.{AreDistinct, AreDistinct-insert}
use recreation_test.Pusher.{
  PushUser, PushMessage, or_nil, add_user, user_map, message_to, messages_with, push_messages,
}

-- The users of a connector, in order.
unfoldable pub users_of : Str → List PushUser → List Str
users_of dst [] = []
users_of dst (v ∷ users) =
    let others = users_of dst users in if str_eq v.connector_id dst then v.uid ∷ others else others

-- The messages to a server, in order.
unfoldable pub sent_to {ℓ} : {V : Type ℓ} → Str → List (Msg V) → List (Msg V)
sent_to dst [] = []
sent_to dst (m ∷ rest) =
    let others = sent_to dst rest in if str_eq m.dst dst then m ∷ others else others

-- Users that join those of a connector.
abbrev pub join_users : Option (List Str) → List Str → Option (List Str)
join_users known [] = known
join_users known (u ∷ uids) = some (or_nil known ++ (u ∷ uids))

join_once :
    (known : Option (List Str)) (u : Str) (uids : List Str)
    → join_users (some (or_nil known ++ (u ∷ []))) uids ≡ join_users known (u ∷ uids)
join_once known u [] = refl
join_once known u (v ∷ uids) = ap some (append_assoc (or_nil known) (u ∷ []) (v ∷ uids))

lookup-add_user :
    (dst : Str) (v : PushUser) (m : List (Str × List Str))
    → lookup dst (add_user m v) ≡ (
        if str_eq v.connector_id dst
        then some (or_nil (lookup v.connector_id m) ++ (v.uid ∷ []))
        else lookup dst m)
unfolding add_user
lookup-add_user dst v m =
    lookup-insert v.connector_id dst (or_nil (lookup v.connector_id m) ++ (v.uid ∷ [])) m

lookup-user_map :
    (dst : Str) (users : List PushUser) (m : List (Str × List Str))
    → lookup dst (user_map users m) ≡ join_users (lookup dst m) (users_of dst users)
unfolding user_map users_of
lookup-user_map dst [] m = refl
lookup-user_map dst (v ∷ users) m =
    let uids = users_of dst users in
    let rest = lookup-user_map dst users (add_user m v) in
    let added = lookup-add_user dst v m in
    elim (Bool-cases (str_eq v.connector_id dst)) [
      | inl same ↦
          let e : v.connector_id ≡ dst = (str_eq_iff v.connector_id dst).0 same in
          let known : lookup dst (add_user m v) ≡ some (or_nil (lookup dst m) ++ (v.uid ∷ [])) =
            rw same at added ∙ ap (λ (t : Str). some (or_nil (lookup t m) ++ (v.uid ∷ []))) e in
          rw same (
            rest
            ∙ ap (λ (o : Option (List Str)). join_users o uids) known
            ∙ join_once (lookup dst m) v.uid uids)
      | inr other ↦
          let known : lookup dst (add_user m v) ≡ lookup dst m = rw other at added in
          rw other (rest ∙ ap (λ (o : Option (List Str)). join_users o uids) known)
    ]

user_map-AreDistinct :
    (users : List PushUser) (m : List (Str × List Str))
    → AreDistinct m
    → AreDistinct (user_map users m)
unfolding user_map add_user
user_map-AreDistinct [] m d = d
user_map-AreDistinct (v ∷ users) m d =
    user_map-AreDistinct users (add_user m v)
      (AreDistinct-insert v.connector_id (or_nil (lookup v.connector_id m) ++ (v.uid ∷ [])) m d)

module _ {ℓ} {V : Type ℓ} (p : PushMessage V) (body : Message) where
  -- The messages to a connector that has these users.
  abbrev pub message_for : Str → Option (List Str) → List (Msg V)
  message_for dst none = []
  message_for dst (some uids) = message_to p body (dst, uids) ∷ []

  sent_to-map :
      (dst : Str) (m : List (Str × List Str))
      → AreDistinct m
      → sent_to dst (map (message_to p body) m) ≡ message_for dst (lookup dst m)
  unfolding sent_to message_to lookup
  sent_to-map dst [] d = refl
  sent_to-map dst ((j, uids) ∷ m) (fresh, d) = elim (Bool-cases (str_eq j dst)) [
    | inl same ↦
        let e : j ≡ dst = (str_eq_iff j dst).0 same in
        let gone : lookup dst m ≡ none = ap (λ (t : Str). lookup t m) (sym e) ∙ fresh in
        let rest = sent_to-map dst m d ∙ ap (message_for dst) gone in
        rw same (
          ap (λ (t : Str). message_to p body (t, uids) ∷ sent_to dst (map (message_to p body) m)) e
          ∙ ap (◌∷◌ (message_to p body (dst, uids))) rest)
    | inr other ↦ rw other (sent_to-map dst m d)
  ]

-- A push tells exactly the users that it names: a server is sent one message if it is the connector of
-- some of them, with the ids of those users in their order, and none otherwise.
pub push_messages_lem {ℓ} :
    {V : Type ℓ} (p : PushMessage V) (body : Message) (dst : Str)
    → p.msg.body ≡ some body
    → (sent : List (Msg V)) × (push_messages p ≡ some sent)
      × (sent_to dst sent ≡ message_for p body dst (join_users none (users_of dst p.users)))
unfolding push_messages messages_with
push_messages_lem p body dst has =
    let m = user_map p.users [] in
    (
      map (message_to p body) m,
      ap (messages_with p) has,
      sent_to-map p body dst m (user_map-AreDistinct p.users [] tt)
          ∙ ap (message_for p body dst) (unfold lookup in lookup-user_map dst p.users []),
    )
