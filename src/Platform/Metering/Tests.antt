-- ===== src/Platform/Metering/Tests.antt =====
-- The theorems on src/platform/metering.ts at a concrete history.
use agentgather.Common.{◌≡◌, ◌≤◌, ◌↔◌, refl, true, false, none, some, List, [], ◌∷◌, js, ok}
use agentgather.Platform.Metering.{
  MeteredDimension, relay_requests, bandwidth_bytes, MeteringLedger, MeteringRecord, new_ledger,
  is_subject, usage, assert_within_quota, counter,
}
use agentgather.Platform.Metering.Accounting.{Use, run, total, usage-run, admitted_iff}

abbrev ledger : MeteringLedger
ledger = new_ledger none (some 1000)

abbrev uses : List Use
uses =
    record {
      now = 5100;
      subject = js "room";
      dimension = relay_requests;
      amount = 1;
      is_public = true;
    }
    ∷ record {
      now = 5200;
      subject = js "room";
      dimension = bandwidth_bytes;
      amount = 90;
      is_public = false;
    }
    ∷ record {
      now = 5300;
      subject = js "other";
      dimension = relay_requests;
      amount = 1;
      is_public = true;
    }
    ∷ []

room-is_subject : is_subject (js "room") ≡ true
unfolding is_subject
room-is_subject = refl

usage-run_example :
    (r : MeteringRecord) × (usage 5900 (js "room") (run uses ledger) ≡ ok r)
    × ((d : MeteredDimension) → counter d r.window.counters ≡ total (js "room") d uses)
usage-run_example =
    usage-run ledger uses 5900 (js "room") room-is_subject refl (refl, (refl, (refl, tt)))

admitted_iff_example :
    (assert_within_quota 5900 (js "room") true (run uses ledger) ≡ ok tt)
    ↔ ((d : MeteredDimension) → total (js "room") d uses ≤ counter d ledger.quota)
admitted_iff_example =
    admitted_iff ledger uses 5900 (js "room") room-is_subject refl (refl, (refl, (refl, tt)))
