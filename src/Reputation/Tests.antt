-- ===== src/Reputation/Tests.antt =====
-- The store over whole-numbered scores, and its theorems at concrete inputs.
use subspace_transceiver.Prelude.{
  ◌+◌, ◌*◌, ◌/◌, ◌^◌, ◌≡◌, ◌≢◌, refl, true, false, List, [], ◌∷◌, none, some, arith,
}
use native.Mathlib.Nat.{zero-div}
use subspace_transceiver.Prelude.Dict
use subspace_transceiver.Prelude.Text.{Text, codes, text_eq}
use subspace_transceiver.Samples.{whole}
use subspace_transceiver.Reputation.{
  valid_content, signature_failure, one_hour, add_delta, PeerRecord, ReputationStore, record_of,
  apply_decay, judged, record_score, get_score, is_blacklisted, should_stop_replicating,
  clear_blacklist,
}
use subspace_transceiver.Reputation.Runs.{Call, scored, ask_score, ask_ban, ask_stop, forgiven, run}
use subspace_transceiver.Reputation.Standing.{blacklisted_for_good, IsGood}

reputation : Unit {0}
unfolding add_delta record_of apply_decay judged record_score get_score is_blacklisted
    should_stop_replicating clear_blacklist Dict.get Dict.set text_eq
reputation = tt

abbrev ann : Text
ann = codes "ann"

abbrev forger : Text
forger = codes "forger"

-- Five forged signatures: the score is -100, not yet below it.
abbrev five_forged : ReputationStore whole
five_forged = run whole [] (
    scored forger signature_failure 1000
    ∷ scored forger signature_failure 1010
    ∷ scored forger signature_failure 1020
    ∷ scored forger signature_failure 1030
    ∷ scored forger signature_failure 1040
    ∷ [])

not_yet : (is_blacklisted whole five_forged forger 1050).1 ≡ false
unfolding reputation
not_yet = refl

an_hour :
    (is_blacklisted whole
      (record_score whole five_forged forger signature_failure 1060)
      forger
      3_601_059).1
    ≡ true
unfolding reputation
an_hour = refl

abbrev eleven_forged : ReputationStore whole
eleven_forged = run whole five_forged (
    scored forger signature_failure 1060
    ∷ scored forger signature_failure 1070
    ∷ scored forger signature_failure 1080
    ∷ scored forger signature_failure 1090
    ∷ scored forger signature_failure 1100
    ∷ scored forger signature_failure 1110
    ∷ [])

abbrev afterwards : List Call
afterwards =
    scored forger valid_content 2000
    ∷ ask_score forger (100 * 24 * one_hour)
    ∷ forgiven ann 3000
    ∷ ask_ban forger (200 * 24 * one_hour)
    ∷ []

permanent :
    (Dict.get forger eleven_forged
      ≡ some (record {
        score = (0, 220);
        last_updated = 1110;
        blacklisted_until = 1060 + one_hour;
        is_permanently_blacklisted = true;
      }))
unfolding reputation
permanent = refl

apart : ann ≢ forger
apart h = cc

blacklisted_for_good_example :
    (is_blacklisted whole (run whole eleven_forged afterwards) forger (300 * 24 * one_hour)).1
    ≡ true
blacklisted_for_good_example =
    blacklisted_for_good whole eleven_forged forger afterwards (300 * 24 * one_hour)
      (rw permanent refl) (λ _. tt, (tt, (λ e. apart e, (tt, tt))))

-- The scores from 0 up: no less gained than lost.
whole-IsGood : IsGood whole (λ x. x.1 ≡ 0)
whole-IsGood = record {
  zero_good = refl;
  raise_good = λ x h. h;
  decayed_good = λ x elapsed h. rw h (zero-div (2 ^ (elapsed / (24 * one_hour))));
  above = λ x n h. ground arith;
}

abbrev honest : List Call
honest =
    scored ann valid_content 10
    ∷ scored forger signature_failure 20
    ∷ ask_stop ann 30
    ∷ scored ann valid_content (30 * 24 * one_hour)
    ∷ []

nobody_known : (peer : Text) → Dict.get {V = PeerRecord whole} peer [] ≡ none
unfolding reputation
nobody_known peer = refl
