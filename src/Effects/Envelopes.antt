-- ===== src/Effects/Envelopes.antt =====
-- The validators of the executor's result (models.py).
use governed_signal_to_conte.Base.{Bool, Result, is_some, not, raise_if, value_error, ◌>>◌, ◌||◌}
use governed_signal_to_conte.Effects.Tables.{EffectOutcome, ExecutorResult}
use governed_signal_to_conte.Scope.{packet_scope}

-- `remote_reference is None or response_hash is None or …` for each outcome.
unfoldable pub breaks_result_semantics : ExecutorResult → Bool
breaks_result_semantics r = elim r.outcome [
  | EffectOutcome.succeeded ↦
      not (is_some r.remote_reference)
      || not (is_some r.response_hash)
      || is_some r.error_code
      || not r.effect_may_have_occurred
      || r.retry_permitted
  | EffectOutcome.failed ↦
      not (is_some r.error_code)
      || is_some r.remote_reference
      || is_some r.response_hash
      || r.effect_may_have_occurred
  | EffectOutcome.unknown ↦
      not (is_some r.error_code) || r.retry_permitted || not r.effect_may_have_occurred
]

-- `ExecutorResultEnvelope.require_result_semantics`
unfoldable pub require_result_semantics : ExecutorResult → Result (Unit {0})
unfolding breaks_result_semantics
require_result_semantics r = do
  raise_if (breaks_result_semantics r) (value_error "Executor result semantics are invalid")
  packet_scope r.scope.brand_id r.scope.channel_id r.scope.destination_id
