-- ===== src/Config/Accepted.antt =====
-- What a configuration satisfies that Load of internal/config/config.go accepts.
use tenantflow.Prelude.{
  Text, Bool, true, false, ◌≡◌, refl, List, [], ◌∷◌, codes, text_eq, text_eq_refl, not, ◌&&◌, ◌||◌,
  ◌==◌, arith, pos, subst,
}
use tenantflow.World.{Result, ok, err}
use tenantflow.Strings.{trim_left, trim_right, trim_space}
use tenantflow.Config.{
  Process, Config, is_empty, split_commas, trimmed_parts, split_list, chaos_rate, get_env_int,
  get_env_duration, known_env, load, assemble, checked_env, ◌>>=◌,
}

unfoldable pub has_comma : Text → Bool
has_comma [] = false
has_comma (c ∷ s) = (c == b',') || has_comma s

-- An entry of a list: not empty, without space around it, without a comma.
abbrev pub is_entry : Text → Bool
is_entry a = not (is_empty a) && (text_eq (trim_space a) a && not (has_comma a))

unfoldable pub all_entries : List Text → Bool
all_entries [] = true
all_entries (a ∷ as') = is_entry a && all_entries as'

trim_right-twice : (s : Text) → trim_right (trim_right s) ≡ trim_right s
unfolding trim_right
trim_right-twice [] = refl
trim_right-twice (c ∷ s) = ground (arith, trim_right-twice s)

trim_left-twice : (s : Text) → trim_left (trim_left s) ≡ trim_left s
unfolding trim_left
trim_left-twice [] = refl
trim_left-twice (c ∷ s) = ground (arith, trim_left-twice s)

-- What is trimmed on the right stays so when it is trimmed on the left.
trim_right-trim_left : (s : Text) → trim_right s ≡ s → trim_right (trim_left s) ≡ trim_left s
unfolding trim_right trim_left
trim_right-trim_left [] h = refl
trim_right-trim_left (c ∷ s) h = ground (arith, trim_right-trim_left s, trim_right-twice s)

trim_space-twice : (s : Text) → trim_space (trim_space s) ≡ trim_space s
unfolding trim_space
trim_space-twice s =
    cc (trim_right-trim_left (trim_right s) (trim_right-twice s), trim_left-twice (trim_right s))

has_comma-trim_left : (s : Text) → has_comma s ≡ false → has_comma (trim_left s) ≡ false
unfolding has_comma trim_left
has_comma-trim_left [] h = refl
has_comma-trim_left (c ∷ s) h = ground (arith, has_comma-trim_left s)

has_comma-trim_right : (s : Text) → has_comma s ≡ false → has_comma (trim_right s) ≡ false
unfolding has_comma trim_right
has_comma-trim_right [] h = refl
has_comma-trim_right (c ∷ s) h = ground (arith, has_comma-trim_right s)

has_comma-trim_space : (s : Text) → has_comma s ≡ false → has_comma (trim_space s) ≡ false
unfolding trim_space
has_comma-trim_space s h = has_comma-trim_left (trim_right s) (has_comma-trim_right s h)

unfoldable no_commas : List Text → Bool
no_commas [] = true
no_commas (s ∷ ss) = not (has_comma s) && no_commas ss

no_commas-split_commas :
    (s : Text) → (has_comma (split_commas s).0 ≡ false) × (no_commas (split_commas s).1 ≡ true)
unfolding split_commas has_comma no_commas
no_commas-split_commas [] = (refl, refl)
no_commas-split_commas (c ∷ s) = ground (arith, no_commas-split_commas s)

all_entries-trimmed_parts :
    (ps : List Text) → no_commas ps ≡ true → all_entries (trimmed_parts ps) ≡ true
unfolding all_entries trimmed_parts no_commas
all_entries-trimmed_parts [] h = refl
all_entries-trimmed_parts (p ∷ ps) h = ground (
  arith,
  trim_space-twice p,
  has_comma-trim_space p,
  text_eq_refl (trim_space p),
  all_entries-trimmed_parts ps,
)

all_entries-split_list : (s : Text) → all_entries (split_list s) ≡ true
unfolding split_list no_commas
all_entries-split_list s =
    all_entries-trimmed_parts ((split_commas s).0 ∷ (split_commas s).1)
      (ground (arith, no_commas-split_commas s))

both_succeed {ℓ ℓ'} :
    {A : Type ℓ} {B : Type ℓ'} (r : Result A) (f : A → Result B) (b : B)
    → (r >>= f) ≡ ok b
    → (a : A) × (r ≡ ok a) × (f a ≡ ok b)
both_succeed (ok a) f b h = (a, refl, h)
both_succeed (err e) f b h = absurd (cc h)

known_env-checked : (p : Process) (env : Text) → checked_env p ≡ ok env → known_env p env ≡ true
unfolding checked_env
known_env-checked p env h = ground (arith, h)

rate_in_range :
    (p : Process)
    → p.is_below_zero p.zero_float ≡ false
    → p.is_above_one p.zero_float ≡ false
    → (rate : p.Float) → chaos_rate p ≡ ok rate
    → (p.is_below_zero rate ≡ false) × (p.is_above_one rate ≡ false)
unfolding chaos_rate
rate_in_range p z1 z2 rate h = ground (arith, z1, z2, h)

abbrev pub Accepted : (p : Process) → Config p → Type 0
Accepted p c =
    (known_env p c.env ≡ true)
    × (p.is_below_zero c.chaos.rate ≡ false)
    × (p.is_above_one c.chaos.rate ≡ false)
    × (all_entries c.chaos.activities ≡ true)
    × (get_env_int p (codes "TENANTFLOW_HTTP_PORT") (pos 9090) ≡ ok c.http_port)
    × (get_env_duration p (codes "TENANTFLOW_RECONCILE_SWEEP_INTERVAL") (pos 600000000000)
        ≡ ok c.reconcile_sweep_interval)

-- A configuration that Load accepts names one of the two environments, has a chaos rate that is
-- neither below 0 nor above 1, given that the default 0 is neither, and restricts chaos to activity
-- names that are not empty, without space around them and without commas; and its port and its
-- interval are the defaults or what the parsers read.
pub load-Accepted :
    (p : Process) (c : Config p)
    → p.is_below_zero p.zero_float ≡ false
    → p.is_above_one p.zero_float ≡ false
    → load p ≡ ok c
    → Accepted p c
unfolding load assemble
load-Accepted p c z1 z2 h =
    let (port, port_read, h1) =
      both_succeed (get_env_int p (codes "TENANTFLOW_HTTP_PORT") (pos 9090)) _ c h in
    let (interval, interval_read, h2) =
      both_succeed
        (get_env_duration p (codes "TENANTFLOW_RECONCILE_SWEEP_INTERVAL") (pos 600000000000)) _ c
        h1 in
    let (env, env_checked, h3) = both_succeed (checked_env p) _ c h2 in
    let (rate, rate_checked, h4) = both_succeed (chaos_rate p) _ c h3 in
    let same : assemble p port interval env rate ≡ c = cc h4 in
    subst (Accepted p) same (
      known_env-checked p env env_checked,
      (rate_in_range p z1 z2 rate rate_checked).0,
      (rate_in_range p z1 z2 rate rate_checked).1,
      all_entries-split_list (p.getenv (codes "TENANTFLOW_CHAOS_ACTIVITIES")),
      port_read,
      interval_read,
    )
