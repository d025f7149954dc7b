-- ===== src/Tests/Core.antt =====
-- crates/punkgo-core: the theorems at concrete inputs.
use punkgo_kernel.Prelude.{
  All, ◌↔◌, ℕ, ◌<◌, ◌+◌, ◌/◌, ◌≡◌, ◌≢◌, ◌↔◌, sym, refl, true, false, none, some, List, [], ◌∷◌,
  String, if◌then◌else◌, eq_iff, arith, inl,
}
use punkgo_kernel.Prelude.Int.{pos, ◌-ℤ◌, ◌≤ℤ◌, ◌<ℤ◌, wrap_i64, as_i64}
use punkgo_kernel.Core.Errors.{ok, err, policy_violation}
use punkgo_kernel.Core.Action.{mutate, Action, quote_cost, payload_bytes, as_str}
use punkgo_kernel.Core.Action.Cost.{base_cost, output_bytes, quote_cost-exact}
use punkgo_kernel.Core.Policy.{is_blank, validate_action, validate_action_iff}
use punkgo_kernel.Core.Actor.{
  ActorType, human, agent, ActorStatus, ActorRecord, WritableTarget, sanitize_purpose,
}
use punkgo_kernel.Core.Actor
use punkgo_kernel.Core.Actor.Names.{type_as_str, parse_type, status_as_str, parse_status, parse_iff}
use punkgo_kernel.Core.Actor.Sanitize.{IsSlug, sanitize_purpose_lem}
use punkgo_kernel.Core.Boundary.{
  is_privileged_target, glob_match, check_writable_boundary, validate_child_targets, covers,
  pattern_covers, find_grant,
}
use punkgo_kernel.Core.Boundary.Access.{Some, MayWrite, check_writable_boundary_iff}
use punkgo_kernel.Core.Boundary.Delegation.{IsLiteral, delegation_sound, wildcard_escalates}
use punkgo_kernel.Core.Consent
use punkgo_kernel.Core.Consent.{EnvelopeRecord, EnvelopeSpec}
use punkgo_kernel.Core.Consent.Checks.{
  IsFunded, IsAuthorized, Crosses, check_authorization_iff, check_envelope_covers_iff,
  check_checkpoint_iff,
}
use punkgo_kernel.Core.Consent.Reduction.{
  IsCovered, validate_envelope_reduction_iff, validate_envelope_reduction_sound,
}
use punkgo_kernel.Tests.Fixtures.{
  Value, null, values, values-HasSizes, matcher, alice, bot, budgeted,
}

abbrev edit : Action Value
edit = record {
  actor_id = "alice";
  action_type = mutate;
  target = "a/x";
  payload = null;
  timestamp = none;
}

quote_cost-exact_example :
    (quote_cost values edit
      ≡ base_cost mutate
        + output_bytes values mutate null / 256
        + (1 + payload_bytes values null / 1024))
    × (0 < quote_cost values edit)
    × (as_i64 (quote_cost values edit) ≡ pos (quote_cost values edit))
quote_cost-exact_example = quote_cost-exact values values-HasSizes edit

validate_action_iff_example : validate_action values edit ≡ (
    if is_blank "alice"
    then err (policy_violation "actor_id cannot be empty")
    else if is_blank "a/x"
    then err (policy_violation "target cannot be empty")
    else ok tt)
validate_action_iff_example = validate_action_iff values values-HasSizes edit

parse_iff_example :
    ((parse_type "agent" ≡ some agent) ↔ ("agent" ≡ type_as_str agent))
    × ((parse_status "frozen" ≡ some Actor.frozen) ↔ ("frozen" ≡ status_as_str Actor.frozen))
parse_iff_example = parse_iff "agent" "frozen" agent Actor.frozen

-- "-Ab  c!"
abbrev purpose : List ℕ
purpose = b'-' ∷ b'A' ∷ b'b' ∷ b' ' ∷ b' ' ∷ b'c' ∷ b'!' ∷ []

sanitize_purpose_lem_example :
    IsSlug (sanitize_purpose purpose)
    × (sanitize_purpose (sanitize_purpose purpose) ≡ sanitize_purpose purpose)
sanitize_purpose_lem_example = sanitize_purpose_lem purpose

check_writable_boundary_iff_example :
    (check_writable_boundary matcher alice "a/x" mutate ≡ ok tt)
    ↔ MayWrite matcher alice "a/x" mutate
check_writable_boundary_iff_example = check_writable_boundary_iff matcher alice "a/x" mutate

matches_any : (t : String) → glob_match matcher "**" t ≡ true
unfolding glob_match
matches_any t = refl

a_x-IsLiteral : IsLiteral matcher "a/x"
unfolding glob_match
a_x-IsLiteral t h = sym ((eq_iff "a/x" t).0 (ground (arith, h)))

bot_rows_valid : validate_child_targets matcher alice bot.writable_targets ≡ ok tt
unfolding validate_child_targets covers pattern_covers glob_match
bot_rows_valid = refl

bot_may_edit : check_writable_boundary matcher bot "a/x" mutate ≡ ok tt
unfolding check_writable_boundary is_privileged_target find_grant glob_match as_str
bot_may_edit = refl

delegation_sound_example : check_writable_boundary matcher alice "a/x" mutate ≡ ok tt
delegation_sound_example =
    delegation_sound matcher matches_any alice bot "a/x" mutate (a_x-IsLiteral, tt) bot_rows_valid
      bot_may_edit

abbrev wide_bot : ActorRecord
wide_bot = record bot {
  writable_targets = record { target = "a/**"; actions = "mutate" ∷ [] } ∷ [];
}

a_x_y-open : is_privileged_target "a/x/y" ≡ false
unfolding is_privileged_target
a_x_y-open = refl

star-matches_text : glob_match matcher "a/*" "a/**" ≡ true
unfolding glob_match
star-matches_text = refl

stars-match : glob_match matcher "a/**" "a/x/y" ≡ true
unfolding glob_match
stars-match = refl

star-misses : glob_match matcher "a/*" "a/x/y" ≡ false
unfolding glob_match
star-misses = refl

mutate-rows : alice.writable_targets ≡ record { target = "a/*"; actions = as_str mutate ∷ [] } ∷ []
unfolding as_str
mutate-rows = refl

wide-rows :
    wide_bot.writable_targets ≡ record { target = "a/**"; actions = as_str mutate ∷ [] } ∷ []
unfolding as_str
wide-rows = refl

wildcard_escalates_example :
    (validate_child_targets matcher alice wide_bot.writable_targets ≡ ok tt)
    × (check_writable_boundary matcher wide_bot "a/x/y" mutate ≡ ok tt)
    × (check_writable_boundary matcher alice "a/x/y" mutate ≢ ok tt)
wildcard_escalates_example =
    wildcard_escalates matcher alice wide_bot "a/*" "a/**" "a/x/y" mutate (λ e. cc) mutate-rows
      wide-rows a_x_y-open star-matches_text stars-match star-misses

check_authorization_iff_example :
    (Consent.check_authorization bot (some budgeted) ≡ ok Consent.man_on_the_loop)
    ↔ IsAuthorized bot (some budgeted) Consent.man_on_the_loop
check_authorization_iff_example =
    check_authorization_iff bot (some budgeted) Consent.man_on_the_loop

budgeted-IsFunded : IsFunded budgeted
budgeted-IsFunded = record { nonneg = omega arith; within = omega arith; small = omega arith }

check_envelope_covers_iff_example :
    (Consent.check_envelope_covers matcher budgeted "a/x" "mutate" ≡ ok tt) ↔ (
      Some (λ a. a ≡ "mutate") budgeted.actions
      × Some (λ p. glob_match matcher p "a/x" ≡ true) budgeted.targets
      × (pos 40 <ℤ pos 100))
check_envelope_covers_iff_example =
    check_envelope_covers_iff matcher budgeted "a/x" "mutate" budgeted-IsFunded

check_checkpoint_iff_example :
    ((Consent.check_checkpoint budgeted (pos 20) ≡ some Consent.halt) ↔ (pos 100 ≤ℤ pos (40 + 20)))
    × ((Consent.check_checkpoint budgeted (pos 20) ≡ some Consent.report) ↔ (
        (pos (40 + 20) <ℤ pos 100)
        × ((r : ℕ) × (some (pos 50) ≡ some (pos r)) × (0 < r) × Crosses r 40 (40 + 20))))
check_checkpoint_iff_example = check_checkpoint_iff budgeted 40 20 refl (omega arith)

abbrev sub_grant : EnvelopeSpec
sub_grant = record {
  actor_id = "alice/bot/2";
  grantor_id = "alice/bot/1";
  budget = pos 30;
  targets = "a/x" ∷ [];
  actions = "mutate" ∷ [];
  duration_secs = none;
  report_every = none;
  hold_on = [];
  hold_timeout_secs = none;
}

sub_grant-valid : Consent.validate_envelope_reduction matcher budgeted sub_grant ≡ ok tt
unfolding Consent.validate_envelope_reduction Consent.remaining Consent.target_covered glob_match
    wrap_i64 as_i64 ◌-ℤ◌
sub_grant-valid = refl

a_x-covered : Some (λ p. glob_match matcher p "a/x" ≡ true) ("a/x" ∷ [])
unfolding glob_match
a_x-covered = inl refl

validate_envelope_reduction_iff_example :
    (Consent.validate_envelope_reduction matcher budgeted sub_grant ≡ ok tt) ↔ (
      (pos 30 ≤ℤ pos 100 -ℤ pos 40)
      × All (λ a. Some (λ b. b ≡ a) budgeted.actions) sub_grant.actions
      × All (IsCovered matcher matches_any budgeted.targets) sub_grant.targets)
validate_envelope_reduction_iff_example =
    validate_envelope_reduction_iff matcher matches_any budgeted sub_grant budgeted-IsFunded

validate_envelope_reduction_sound_example :
    (pos 30 ≤ℤ pos 100 -ℤ pos 40)
    × Some (λ a. a ≡ "mutate") budgeted.actions
    × Some (λ p. glob_match matcher p "a/x" ≡ true) ("a/x" ∷ [])
validate_envelope_reduction_sound_example =
    validate_envelope_reduction_sound matcher matches_any budgeted sub_grant "a/x" "mutate"
      budgeted-IsFunded (a_x-IsLiteral, tt) sub_grant-valid (inl refl) a_x-covered
