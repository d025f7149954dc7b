-- ===== src/Tests/Fixtures.antt =====
-- The inputs of the tests: a small type of JSON values, a matcher of patterns, and rows of the tables.
use punkgo_kernel.Prelude.{
  ℕ, ◌<◌, ◌≡◌, Bool, true, false, ◌&&◌, ◌||◌, Option, none, some, [], ◌∷◌, String, if◌then◌else◌,
  ◌==◌, ltb, leb, arith,
}
use punkgo_kernel.Prelude.Int.{ℤ, pos, negsuc, pos_part, neg_part, i64_mod, u64_mod, ◌<ℤ◌}
use punkgo_kernel.Core.Json.{Json, HasSizes}
use punkgo_kernel.Core.Actor.{ActorRecord, WritableTarget, human, agent}
use punkgo_kernel.Core.Actor
use punkgo_kernel.Core.Boundary.{GlobSet}
use punkgo_kernel.Core.Consent.{EnvelopeRecord, EnvelopeStatus}
use punkgo_kernel.State.EnvelopeStore.{HoldRequest, HoldStatus}

-- `field k v rest` is an object with one more field.
pub data Value : Type 0 where
  null empty : Value
  flag : Bool → Value
  number : ℤ → Value
  text : String → Value
  field : String → Value → Value → Value

abbrev lookup : Value → String → Option Value
lookup (field k v rest) key = if k == key then some v else lookup rest key
lookup null key = none
lookup empty key = none
lookup (flag _) key = none
lookup (number _) key = none
lookup (text _) key = none

abbrev text_of : Value → Option String
text_of (text s) = some s
text_of _ = none

abbrev number_of : Value → Option ℤ
number_of (number z) = if ltb (pos_part z) i64_mod && leb (neg_part z) i64_mod then some z else none
number_of _ = none

abbrev natural_of : Value → Option ℕ
natural_of (number (pos n)) = if ltb n u64_mod then some n else none
natural_of _ = none

abbrev flag_of : Value → Option Bool
flag_of (flag b) = some b
flag_of _ = none

abbrev has_fields : Value → Bool
has_fields (field _ _ _) = true
has_fields empty = true
has_fields _ = false

abbrev pub values : Json Value
values = record {
  get = lookup;
  as_str = text_of;
  as_i64 = number_of;
  as_u64 = natural_of;
  as_f64 = natural_of;
  as_bool = flag_of;
  is_object = has_fields;
  null = null;
  of_bool = flag;
  of_i64 = number;
  of_str = text;
  empty_object = empty;
  insert = λ v k w. field k w v;
  to_vec = λ v. some (b'{' ∷ b'}' ∷ []);
}

natural_of-lt : (v : Value) (n : ℕ) → natural_of v ≡ some n → n < u64_mod
natural_of-lt null n h = cc
natural_of-lt empty n h = cc
natural_of-lt (flag b) n h = cc
natural_of-lt (number (pos m)) n h = ground (arith, h)
natural_of-lt (number (negsuc m)) n h = cc
natural_of-lt (text s) n h = cc
natural_of-lt (field k v r) n h = cc

pub number_of-lt : (v : Value) (z : ℤ) → number_of v ≡ some z → z <ℤ pos i64_mod
number_of-lt null z h = cc
number_of-lt empty z h = cc
number_of-lt (flag b) z h = cc
number_of-lt (number y) z h = ground (arith, h)
number_of-lt (text s) z h = cc
number_of-lt (field k v r) z h = cc

pub values-HasSizes : HasSizes values
values-HasSizes = record {
  as_u64_lt = natural_of-lt;
  to_vec_lt = λ v b h. (let same : b'{' ∷ b'}' ∷ [] ≡ b = cc in rw (← same) (omega arith));
}

-- A few patterns: `**`, the texts without a wildcard, and `a/*` and `a/**` on three texts.
abbrev pub matcher : GlobSet
matcher pattern = some (λ target.
    pattern == "**"
    || pattern == target
    || (pattern == "a/*" && (target == "a/x" || target == "a/**"))
    || (pattern == "a/**" && (target == "a/x" || target == "a/x/y" || target == "a/*")))

abbrev pub alice : ActorRecord
alice = record {
  actor_id = "alice";
  actor_type = human;
  creator_id = none;
  lineage = [];
  purpose = none;
  status = Actor.active;
  writable_targets = record { target = "a/*"; actions = "mutate" ∷ [] } ∷ [];
  energy_share = 0;
  reduction_policy = "none";
  created_at = 1;
  updated_at = 1;
}

abbrev pub bot : ActorRecord
bot = record {
  actor_id = "alice/bot/1";
  actor_type = agent;
  creator_id = some "alice";
  lineage = "alice" ∷ [];
  purpose = some "bot";
  status = Actor.active;
  writable_targets = record { target = "a/x"; actions = "mutate" ∷ [] } ∷ [];
  energy_share = 0;
  reduction_policy = "none";
  created_at = 2;
  updated_at = 2;
}

abbrev pub budgeted : EnvelopeRecord
budgeted = record {
  envelope_id = "e1";
  actor_id = "alice/bot/1";
  grantor_id = "alice";
  parent_envelope_id = none;
  budget = pos 100;
  budget_consumed = pos 40;
  targets = "a/x" ∷ [];
  actions = "mutate" ∷ [];
  duration_secs = none;
  report_every = some (pos 50);
  hold_on = [];
  hold_timeout_secs = none;
  status = EnvelopeStatus.active;
  last_report_at = pos 0;
  created_at = 5;
  expires_at = some 1000;
  updated_at = 5;
}

abbrev pub waiting : HoldRequest Value
waiting = record {
  hold_id = "h1";
  envelope_id = "e1";
  agent_id = "alice/bot/1";
  trigger_target = "a/x";
  trigger_action = "mutate";
  pending_payload = null;
  status = HoldStatus.pending;
  decision = none;
  instruction = none;
  triggered_at = 7;
  resolved_at = none;
}
