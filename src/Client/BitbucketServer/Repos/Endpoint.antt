-- ===== src/Client/BitbucketServer/Repos/Endpoint.antt =====
-- The address that the client of Bitbucket Server keeps, and where it posts keys.
use text.Mathlib.TextLemmas.{nil-append, cons-append}
use froggit_go.Base.{
  ℕ, suc, ◌+◌, String, ◌<>◌, ◌≡◌, ◌≢◌, refl, sym, ap, ◌∙◌, Bool-cases, inl, inr, true, false, ◌∷◌,
  [], arith, eq_iff, ◌==◌,
}
use froggit_go.Base.Text.{has_suffix, trim_suffix}
use froggit_go.Client.Params.{Params}
use froggit_go.Client.BitbucketServer.Repos.{build_bitbucket_client}

abbrev size : String → ℕ
size String.[] = 0
size (String.◌∷◌ c s) = suc (size s)

size-append : (s t : String) → size (s <> t) ≡ size s + size t
size-append String.[] t = ap size (nil-append t) ∙ omega arith
size-append (String.◌∷◌ c s) t =
    let shorter = size-append s t in ap size (cons-append c s t) ∙ omega arith

same_text : (t : String) → (t == t) ≡ true
same_text t = (eq_iff t t).1 refl

has_suffix_self : (t : String) → has_suffix t t ≡ true
unfolding has_suffix
has_suffix_self String.[] = same_text ""
has_suffix_self (String.◌∷◌ c s) = rw (same_text (String.◌∷◌ c s)) refl

has_suffix-append : (s t : String) → has_suffix (s <> t) t ≡ true
unfolding has_suffix
has_suffix-append String.[] t = ap (λ u. has_suffix u t) (nil-append t) ∙ has_suffix_self t
has_suffix-append (String.◌∷◌ c s) t =
    ap (λ u. has_suffix u t) (cons-append c s t) ∙ elim (Bool-cases (String.◌∷◌ c (s <> t) == t)) [
      | inl e ↦ rw e refl
      | inr e ↦ rw e (has_suffix-append s t)
    ]

longer : (s t : String) → size s ≢ size t → (s == t) ≡ false
longer s t h = elim (Bool-cases (s == t)) [
  | inl e ↦ absurd (h (ap size ((eq_iff s t).0 e)))
  | inr e ↦ e
]

trim_suffix_self : (t : String) → t ≢ "" → trim_suffix t t ≡ ""
unfolding trim_suffix
trim_suffix_self String.[] h = refl
trim_suffix_self (String.◌∷◌ c s) h = rw (same_text (String.◌∷◌ c s)) refl

trim_suffix-append : (s t : String) → t ≢ "" → trim_suffix (s <> t) t ≡ s
unfolding trim_suffix
trim_suffix-append String.[] t h = ap (λ u. trim_suffix u t) (nil-append t) ∙ trim_suffix_self t h
trim_suffix-append (String.◌∷◌ c s) t h =
    let sizes = size-append s t in
    let other = longer (String.◌∷◌ c (s <> t)) t (λ e. absurd (omega arith)) in
    ap (λ u. trim_suffix u t) (cons-append c s t) ∙ rw (other, trim_suffix-append s t h) refl

trim_suffix-missing : (s t : String) → has_suffix s t ≡ false → trim_suffix s t ≡ s
unfolding trim_suffix has_suffix
trim_suffix-missing String.[] t h = refl
trim_suffix-missing (String.◌∷◌ c s) t h = elim (Bool-cases (String.◌∷◌ c s == t)) [
  | inl e ↦ absurd (ground arith)
  | inr e ↦ rw e (ap (λ u. String.◌∷◌ c u) (trim_suffix-missing s t (sym (rw e refl) ∙ h)))
]

rest_named : ◌≢◌ {A = String} "/rest" ""
rest_named = ground (arith, eq_iff "/rest" "")

build_kept : (e : String) → has_suffix e "/rest" ≡ true → build_bitbucket_client e ≡ e
unfolding build_bitbucket_client
build_kept e h = rw h refl

build_added : (e : String) → has_suffix e "/rest" ≡ false → build_bitbucket_client e ≡ e <> "/rest"
unfolding build_bitbucket_client
build_added e h = rw h refl

-- Every operation that builds the client leaves an address that ends in `/rest`, once: a second one
-- does not change it, and without the ending, as in the addresses of commits, it is the address that
-- the client was made with, without the ending.
pub build_bitbucket_client_lem :
    (e : String)
    → (has_suffix (build_bitbucket_client e) "/rest" ≡ true)
      × (build_bitbucket_client (build_bitbucket_client e) ≡ build_bitbucket_client e)
      × (trim_suffix (build_bitbucket_client e) "/rest" ≡ trim_suffix e "/rest")
build_bitbucket_client_lem e = elim (Bool-cases (has_suffix e "/rest")) [
  | inl h ↦
      let kept = build_kept e h in
      (
        ap (λ u. has_suffix u "/rest") kept ∙ h,
        ap build_bitbucket_client kept,
        ap (λ u. trim_suffix u "/rest") kept,
      )
  | inr h ↦
      let added = build_added e h in
      let ends = has_suffix-append e "/rest" in
      (
        ap (λ u. has_suffix u "/rest") added ∙ ends,
        ap build_bitbucket_client added ∙ build_kept (e <> "/rest") ends ∙ sym added,
        ap (λ u. trim_suffix u "/rest") added
            ∙ trim_suffix-append e "/rest" rest_named
            ∙ sym (trim_suffix-missing e "/rest" h),
      )
]

-- The parameters of the operation.
abbrev key_params : String → String → String → String → Params
key_params owner repository key_name public_key =
    ("owner", owner)
    ∷ ("repository", repository)
    ∷ ("key name", key_name)
    ∷ ("public key", public_key)
    ∷ []

abbrev pub key_path : String → String → String
key_path owner repository =
    "/keys/1.0/projects/" <> (owner <> ("/repos/" <> (repository <> "/ssh")))
