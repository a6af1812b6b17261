-- ===== src/Tests/Fixture.antt =====
-- A host whose receipts are texts, with a fixed hash.
use text.Mathlib.Text.{◌==◌ as text_eq}
use agentic_investment_os.Prelude.{◌≡◌, refl, true, some, String}
use agentic_investment_os.Scheduler.Policy.{
  MarketSession, SchedulerPolicy, is_regular_session, policy_is_valid,
}
use agentic_investment_os.Scheduler.Status.{is_hash}
use agentic_investment_os.Scheduler.Host.{Host, HostLaws}
use agentic_investment_os.Calendar.{date}
use agentic_investment_os.Tests.NewYork.{new_york, new_york-ZoneLaws}

-- 2026-03-09, the first session of summer time
abbrev pub monday : MarketSession
monday = record { trading_date = date 2026 3 9 }

abbrev pub zeros : String
zeros = "0000000000000000000000000000000000000000000000000000000000000000"

zeros-is_hash : is_hash zeros ≡ true
unfolding is_hash
zeros-is_hash = refl

-- Every receipt is one of `monday`; the text "refused" is one that failed closed.
abbrev pub host : Host String
host = record {
  zone = new_york;
  event_hash = λ m. zeros;
  receipt_cycle = λ r. some monday;
  receipt_failed = λ r. text_eq r "refused";
  receipt_hash = λ r. zeros;
  receipt_text = λ r. r;
  receipt_parse = λ t. some t;
}

pub host-HostLaws : HostLaws host
host-HostLaws = record {
  zone_laws = new_york-ZoneLaws;
  event_hash-is_hash = λ m. zeros-is_hash;
  receipt_hash-is_hash = λ r. zeros-is_hash;
  parse-text = λ r. refl;
}

abbrev pub policy : SchedulerPolicy
policy = record {
  first_session = monday;
  advance_minutes_before_open = 15;
  maximum_lateness_minutes = 10;
  recovery_delay_seconds = 60;
  maximum_actions_per_run = 3;
}

pub policy-valid : policy_is_valid policy ≡ true
unfolding policy_is_valid is_regular_session
policy-valid = refl
