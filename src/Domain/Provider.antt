-- ===== src/Domain/Provider.antt =====
-- What the searches in a channel template find.
use mathlib.Core.List.{Memᴰ}
use jotify.Prelude.{
  ℕ, ◌≡◌, refl, ap, sym, Option, none, some, List, [], ◌∷◌, arith, inl, inr, Bool-cases, ◌==◌,
}
use jotify.Domain.Template.{
  ChannelTpl, ChannelTplVersion, ChannelTplProvider, find_version, find_provider, get_version,
  get_provider,
}

some_inj {ℓ} : {A : Type ℓ} {a b : A} → Path (Option A) (some a) (some b) → a ≡ b
some_inj {a} p = ap (λ o. elim o [ none ↦ a | some x ↦ x ]) p

find_version_hit :
    (id : ℕ) (vs : List ChannelTplVersion) (v : ChannelTplVersion)
    → find_version id vs ≡ some v
    → (v.id ≡ id) × Memᴰ v vs
unfolding find_version
find_version_hit id [] v h = ground arith
find_version_hit id (u ∷ vs) v h = elim (Bool-cases (u.id == id)) [
  | inl e ↦ (ground arith, Memᴰ.head (sym (some_inj (ground arith))))
  | inr e ↦ let (same, m) = find_version_hit id vs v (ground arith) in (same, Memᴰ.tail m)
]

find_provider_hit :
    (id : ℕ) (ps : List ChannelTplProvider) (p : ChannelTplProvider)
    → find_provider id ps ≡ some p
    → (p.id ≡ id) × Memᴰ p ps
unfolding find_provider
find_provider_hit id [] p h = ground arith
find_provider_hit id (q ∷ ps) p h = elim (Bool-cases (q.id == id)) [
  | inl e ↦ (ground arith, Memᴰ.head (sym (some_inj (ground arith))))
  | inr e ↦ let (same, m) = find_provider_hit id ps p (ground arith) in (same, Memᴰ.tail m)
]

-- A provider that is found has the id asked for, and is a provider of a version of the template
-- that has the version id asked for.
pub get_provider-hit :
    (t : ChannelTpl) (version_id provider_id : ℕ) (p : ChannelTplProvider)
    → get_provider t version_id provider_id ≡ some p
    → (v : ChannelTplVersion) × Memᴰ v t.versions
      × (v.id ≡ version_id)
      × Memᴰ p v.providers
      × (p.id ≡ provider_id)
unfolding get_provider get_version
get_provider-hit t version_id provider_id p h = go (find_version version_id t.versions) refl h
  where
    go :
        (o : Option ChannelTplVersion)
        → find_version version_id t.versions ≡ o
        → elim o [ none ↦ none | some v ↦ find_provider provider_id v.providers ] ≡ some p
        → (v : ChannelTplVersion) × Memᴰ v t.versions
          × (v.id ≡ version_id)
          × Memᴰ p v.providers
          × (p.id ≡ provider_id)
    go none e k = ground arith
    go (some v) e k =
        let (same, m) = find_version_hit version_id t.versions v e in
        let (same_p, m_p) = find_provider_hit provider_id v.providers p k in
        (v, m, same, m_p, same_p)
