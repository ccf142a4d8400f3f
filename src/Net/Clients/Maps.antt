-- ===== src/Net/Clients/Maps.antt =====
-- Maps without repeated keys, lists of maps, and what the operations on them do to sizes and look-ups.
use mathlib.Core.Path.{subst}
use mathlib.Core.Option
use recreation_test.Base.{
  ℕ, zero, suc, ◌+◌, ◌<◌, ◌≡◌, refl, ap, sym, ◌∙◌, ◌==◌, if◌then◌else◌, List, [], ◌∷◌, map, length,
  get_elem?, get_elem?-lt, Option, none, some, Str, str_eq, str_eq_iff, lookup, insert, delete,
  lookup-insert, lookup-delete, string_eq, arith, Bool-cases, inl, inr, All,
}
use recreation_test.Base.Bits.{bit_and-le}
use recreation_test.Net.Hash.{fnv32}
use recreation_test.Net.Clients.{
  WsConnection, Manager, bucket_index, update_at, get_bucket, or_empty, find_client, map_clients,
  bucket_mask,
}

module _ {ℓ} {V : Type ℓ} where
  abbrev pub AreDistinct : List (Str × V) → Type ℓ
  AreDistinct [] = Unit {ℓ}
  AreDistinct ((k, v) ∷ m) = (lookup k m ≡ none) × AreDistinct m

  pub AreDistinct-insert :
      (k : Str) (v : V) (m : List (Str × V)) → AreDistinct m → AreDistinct (insert k v m)
  unfolding insert lookup
  AreDistinct-insert k v [] d = (refl, tt)
  AreDistinct-insert k v ((j, w) ∷ m) (fresh, d) = elim (Bool-cases (str_eq j k)) [
    | inl same ↦
        let e : j ≡ k = (str_eq_iff j k).0 same in
        rw same (ap (λ (t : Str). lookup t m) (sym e) ∙ fresh, d)
    | inr other ↦ rw other (
      ground (arith, lookup-insert k j v m, str_eq_iff k j, str_eq_iff j k),
      AreDistinct-insert k v m d,
    )
  ]

  pub length-insert :
      (k : Str) (v : V) (m : List (Str × V))
      → lookup k m ≡ none
      → length (insert k v m) ≡ length m + 1
  unfolding insert lookup
  length-insert k v [] fresh = refl
  length-insert k v ((j, w) ∷ m) fresh = ground (arith, length-insert k v m)

  pub length-insert_old :
      (k : Str) (v w : V) (m : List (Str × V))
      → lookup k m ≡ some w
      → length (insert k v m) ≡ length m
  unfolding insert lookup
  length-insert_old k v w [] old = absurd (cc)
  length-insert_old k v w ((j, u) ∷ m) old = ground (arith, length-insert_old k v w m)

  delete-absent : (k : Str) (m : List (Str × V)) → lookup k m ≡ none → delete k m ≡ m
  unfolding delete lookup
  delete-absent k [] fresh = refl
  delete-absent k ((j, w) ∷ m) fresh = ground (arith, delete-absent k m)

  pub AreDistinct-delete : (k : Str) (m : List (Str × V)) → AreDistinct m → AreDistinct (delete k m)
  unfolding delete
  AreDistinct-delete k [] d = tt
  AreDistinct-delete k ((j, w) ∷ m) (fresh, d) = elim (Bool-cases (str_eq j k)) [
    | inl same ↦ rw same (AreDistinct-delete k m d)
    | inr other ↦ rw other (ground (arith, lookup-delete k j m), AreDistinct-delete k m d)
  ]

  pub length-delete :
      (k : Str) (v : V) (m : List (Str × V))
      → AreDistinct m
      → lookup k m ≡ some v
      → length (delete k m) + 1 ≡ length m
  unfolding delete lookup
  length-delete k v [] d old = absurd (cc)
  length-delete k v ((j, w) ∷ m) (fresh, d) old = elim (Bool-cases (str_eq j k)) [
    | inl same ↦
        let e : j ≡ k = (str_eq_iff j k).0 same in
        let gone : delete k m ≡ m =
          delete-absent k m (ap (λ (t : Str). lookup t m) (sym e) ∙ fresh) in
        ground (arith, gone)
    | inr other ↦ ground (arith, length-delete k v m d)
  ]

module _ {ℓ} {A : Type ℓ} where
  pub get_elem?-update_at :
      (i j : ℕ) (f : A → A) (xs : List A) (x : A)
      → get_elem? xs i ≡ some x
      → get_elem? (update_at i f xs) j ≡ (if i == j then some (f x) else get_elem? xs j)
  unfolding update_at
  get_elem?-update_at i j f [] x e = absurd (cc)
  get_elem?-update_at zero zero f (y ∷ xs) x e = ground arith
  get_elem?-update_at zero (suc j) f (y ∷ xs) x e = ground arith
  get_elem?-update_at (suc i) zero f (y ∷ xs) x e = ground arith
  get_elem?-update_at (suc i) (suc j) f (y ∷ xs) x e =
      ground (arith, get_elem?-update_at i j f xs x e)

  pub length-update_at : (i : ℕ) (f : A → A) (xs : List A) → length (update_at i f xs) ≡ length xs
  unfolding update_at
  length-update_at i f [] = refl
  length-update_at zero f (x ∷ xs) = refl
  length-update_at (suc i) f (x ∷ xs) = ap suc (length-update_at i f xs)

  pub All-update_at {κ} :
      (P : A → Type κ) (i : ℕ) (f : A → A) (xs : List A)
      → ((x : A) → P x → P (f x))
      → All P xs
      → All P (update_at i f xs)
  unfolding update_at
  All-update_at P i f [] h a = tt
  All-update_at P zero f (x ∷ xs) h (p, a) = (h x p, a)
  All-update_at P (suc i) f (x ∷ xs) h (p, a) = (p, All-update_at P i f xs h a)

  pub All-member {κ} :
      (P : A → Type κ) (i : ℕ) (xs : List A) (x : A) → get_elem? xs i ≡ some x → All P xs → P x
  All-member P i [] x e a = absurd (cc)
  All-member P zero (y ∷ xs) x e (p, a) = let same : y ≡ x = ground arith in subst P same p
  All-member P (suc i) (y ∷ xs) x e (p, a) = All-member P i xs x e a

  -- The number of entries of all the lists.
  abbrev pub total : List (List A) → ℕ
  total [] = 0
  total (b ∷ bs) = length b + total bs

  pub total-update_at :
      (i : ℕ) (f : List A → List A) (bs : List (List A)) (b : List A)
      → get_elem? bs i ≡ some b
      → total (update_at i f bs) + length b ≡ total bs + length (f b)
  unfolding update_at
  total-update_at i f [] b e = absurd (cc)
  total-update_at zero f (c ∷ bs) b e = let same : c ≡ b = ground arith in rw same (omega arith)
  total-update_at (suc i) f (c ∷ bs) b e = omega (arith, total-update_at i f bs b e)

-- The index of a bucket is in range.
pub bucket_index-lt : (cid : Str) → bucket_index cid < 32
unfolding bucket_index
bucket_index-lt cid = omega (arith, bit_and-le (fnv32 cid) bucket_mask)

module _ {ℓ} {V : Type ℓ} (m : Manager V) (width : length m.client_buckets ≡ 32) where
  -- The bucket of an id is in the list.
  pub bucket_there :
      (cid : Str) → get_elem? m.client_buckets (bucket_index cid) ≡ some (get_bucket m cid)
  unfolding get_bucket
  bucket_there cid =
      let inside : bucket_index cid < length m.client_buckets =
        omega (arith, bucket_index-lt cid) in
      let (b, e) = get_elem?-lt m.client_buckets (bucket_index cid) inside in
      e ∙ ap some (sym (ap or_empty e))

  same_bucket :
      (cid j : Str) → bucket_index cid ≡ bucket_index j → get_bucket m cid ≡ get_bucket m j
  unfolding get_bucket
  same_bucket cid j e = ap (λ (i : ℕ). or_empty (get_elem? m.client_buckets i)) e

  -- A change of the entry of one id, as the look-up of every id sees it.
  pub lookup-update :
      (cid j : Str) (f : List (Str × WsConnection V) → List (Str × WsConnection V))
      (new : Option (WsConnection V))
      → ((b : List (Str × WsConnection V))
          → lookup j (f b) ≡ (if str_eq cid j then new else lookup j b))
      → find_client
          (record m { client_buckets = update_at (bucket_index cid) f m.client_buckets })
          j
        ≡ (if str_eq cid j then new else find_client m j)
  unfolding find_client get_bucket
  lookup-update cid j f new local =
      let changed =
        get_elem?-update_at (bucket_index cid) (bucket_index j) f m.client_buckets
          (get_bucket m cid) (bucket_there cid) in
      ap (λ (o : Option (List (Str × WsConnection V))). lookup j (or_empty o)) changed
      ∙ elim (Bool-cases (bucket_index cid == bucket_index j)) [
        | inl same ↦
            let there = same_bucket cid j (ground arith) in
            rw same (
              local (get_bucket m cid)
              ∙ ap (λ (b : List (Str × WsConnection V)). if str_eq cid j then new else lookup j b)
                  there)
        | inr other ↦
            rw other (ground (arith, str_eq_iff cid j, λ (e : cid ≡ j). ap bucket_index e))
      ]

module _ {ℓ} {V : Type ℓ} (f : WsConnection V → WsConnection V) where
  lookup-map_clients :
      (k : Str) (b : List (Str × WsConnection V))
      → lookup k (map_clients f b) ≡ Option.map f (lookup k b)
  unfolding lookup map_clients
  lookup-map_clients k [] = refl
  lookup-map_clients k ((j, v) ∷ b) = ground (arith, lookup-map_clients k b)

  AreDistinct-map_clients :
      (b : List (Str × WsConnection V)) → AreDistinct b → AreDistinct (map_clients f b)
  unfolding map_clients
  AreDistinct-map_clients [] d = tt
  AreDistinct-map_clients ((k, c) ∷ b) (fresh, d) =
      (lookup-map_clients k b ∙ ap (Option.map f) fresh, AreDistinct-map_clients b d)

  length-map_clients : (b : List (Str × WsConnection V)) → length (map_clients f b) ≡ length b
  unfolding map_clients
  length-map_clients [] = refl
  length-map_clients ((k, c) ∷ b) = ap suc (length-map_clients b)

  pub All-map_clients :
      (bs : List (List (Str × WsConnection V)))
      → All AreDistinct bs
      → All AreDistinct (map (map_clients f) bs)
        × (total (map (map_clients f) bs) ≡ total bs)
        × (length (map (map_clients f) bs) ≡ length bs)
  All-map_clients [] a = (tt, refl, refl)
  All-map_clients (b ∷ bs) (d, a) =
      let (rest, sizes, width) = All-map_clients bs a in
      (
        (AreDistinct-map_clients b d, rest),
        omega (arith, length-map_clients b, sizes),
        ap suc width,
      )

  get_elem?-mapped :
      (i : ℕ) (k : Str) (bs : List (List (Str × WsConnection V)))
      → lookup k (or_empty (get_elem? (map (map_clients f) bs) i))
        ≡ Option.map f (lookup k (or_empty (get_elem? bs i)))
  unfolding lookup
  get_elem?-mapped i k [] = refl
  get_elem?-mapped zero k (b ∷ bs) = lookup-map_clients k b
  get_elem?-mapped (suc i) k (b ∷ bs) = get_elem?-mapped i k bs

  -- A change of every connection, as the look-up of an id sees it.
  pub find_client-mapped :
      (m : Manager V) (new : List (Str × V)) (cid : Str)
      → find_client
          (record m { shared = new; client_buckets = map (map_clients f) m.client_buckets })
          cid
        ≡ Option.map f (find_client m cid)
  unfolding find_client get_bucket
  find_client-mapped m new cid = get_elem?-mapped (bucket_index cid) cid m.client_buckets
