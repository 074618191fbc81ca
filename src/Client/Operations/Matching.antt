-- ===== src/Client/Operations/Matching.antt =====
-- Runs of crates/netfilum-client/src/mount.rs that go alike from related states.
pub mod Twins
pub mod Runs
pub mod Listings
pub mod Every
use netfilum.Prelude.{◌≡◌, refl, arith, inl, inr}
use netfilum.Prelude.Results.{Run, Result-cases, ◌>>=◌, pure}

module _ {W X : Type 0} (At : W → Type 0) where
  abbrev pub Keeps : {A : Type 0} → Run W X A → Type 0
  Keeps m = (s : W) → At s → At (m s).1

  pub >>=-Keeps :
      {A B : Type 0} (m : Run W X A) (f : A → Run W X B)
      → Keeps m
      → ((a : A) → Keeps (f a))
      → Keeps (m >>= f)
  >>=-Keeps m f k l s p = elim (Result-cases (m s).0) [
    | inl (a, e) ↦ rw e (l a (m s).1 (k s p))
    | inr (x, e) ↦ rw e (k s p)
  ]

-- Two runs that give the same results from states that `view` relates, where the first one keeps `At`.
module _ {W V X : Type 0} (view : W → V) (At : W → Type 0) where
  pub record Matches {A : Type 0} (m : Run W X A) (n : Run V X A) : Type 0 where
    pub same : (s : W) → At s → (m s).0 ≡ (n (view s)).0
    pub seen : (s : W) → At s → view (m s).1 ≡ (n (view s)).1

  pub pure-Matches : {A : Type 0} (a : A) → Matches (pure a) (pure a)
  pure-Matches a = record { same = λ s h. refl; seen = λ s h. refl }

  pub >>=-Matches :
      {A B : Type 0} (m : Run W X A) (n : Run V X A) (f : A → Run W X B) (g : A → Run V X B)
      → Matches m n
      → Keeps At m
      → ((a : A) → Matches (f a) (g a))
      → Matches (m >>= f) (n >>= g)
  >>=-Matches m n f g h k l = record {
    same = λ s p. elim (Result-cases (m s).0) [
      | inl (a, e) ↦ ground (arith, h.same s p, h.seen s p, (l a).same (m s).1 (k s p))
      | inr (x, e) ↦ ground (arith, h.same s p)
    ];
    seen = λ s p. elim (Result-cases (m s).0) [
      | inl (a, e) ↦ ground (arith, h.same s p, h.seen s p, (l a).seen (m s).1 (k s p))
      | inr (x, e) ↦ ground (arith, h.same s p, h.seen s p)
    ];
  }
