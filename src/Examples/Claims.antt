-- ===== src/Examples/Claims.antt =====
-- Runs of the claims on addresses.
use raise_my_freedom.Common.{ℕ, ◌≡◌, ◌≢◌, refl, true, false, ◌||◌, List, [], ◌∷◌, arith}
use raise_my_freedom.SiteConfig.Text.{str_eq}
use raise_my_freedom.Claims.{
  Claim, has_slash, without, tmp_name, claims_store, claims_taken_by_other, claims_release,
}
use raise_my_freedom.Claims.Taken.{IsText, listed, claims_store-taken}

-- Addresses, as short texts.
abbrev one : List ℕ
one = b'1' ∷ []

abbrev two : List ℕ
two = b'2' ∷ []

abbrev google : List ℕ
google = b'g' ∷ []

abbrev discord : List ℕ
discord = b'd' ∷ []

-- What another run left: google's old claim, and a file that was not renamed.
abbrev before : List Claim
before = record { name = google; text = two } ∷ record { name = tmp_name google; text = two } ∷ []

abbrev stored : List Claim
stored = (claims_store true true google (one ∷ []) before).1

one_taken : claims_taken_by_other discord one stored ≡ true
unfolding claims_store claims_taken_by_other
one_taken = refl

own_free : claims_taken_by_other google one stored ≡ false
unfolding claims_store claims_taken_by_other
own_free = refl

two_free : claims_taken_by_other discord two stored ≡ false
unfolding claims_store claims_taken_by_other
two_free = refl

released : claims_taken_by_other discord one (claims_release google stored) ≡ false
unfolding claims_store claims_taken_by_other claims_release
released = refl

-- The file that was not renamed claims its addresses against its own module.
tmp_taken : claims_taken_by_other google two before ≡ true
unfolding claims_taken_by_other
tmp_taken = refl

no_dot : ◌≢◌ {A = ℕ} b'g' b'.'
no_dot = omega arith

one-IsText : IsText one
one-IsText = (omega arith, omega arith, ((omega arith, omega arith, omega arith), tt))

claims_store-taken_example :
    claims_taken_by_other discord one stored
    ≡ claims_taken_by_other discord one (without google (without (tmp_name google) before))
      || listed one (one ∷ [])
claims_store-taken_example =
    claims_store-taken google discord one (one ∷ []) before (omega arith) (unfold has_slash in refl)
      no_dot (unfold str_eq in refl) (one-IsText, tt) (omega arith)
