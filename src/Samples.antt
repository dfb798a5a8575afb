-- ===== src/Samples.antt =====
-- A platform and a store for the tests.
use team5_ewaste_platform.Common.{◌*◌, ◌/◌, ◌-◌, ◌^◌, false, none, some, [], ◌++◌, codes, ltb}
use team5_ewaste_platform.Treatment.{format_treatment_cents}
use team5_ewaste_platform.Store.{Db}
use team5_ewaste_platform.Platform.{Platform}

-- Weights in cents for float64, and texts for hashes and JSON.
abbrev pub plain : Platform
plain = record {
  is_nan = λ x. false;
  is_inf = λ x. false;
  less = ltb;
  minus = λ x y. x - y;
  times = λ x y. x * y / 100;
  absolute = λ x. x;
  rounded = λ x. x / 100 * 100;
  constant = λ digits places. digits * 100 / 10 ^ places;
  parse_float = λ s. some 1250;
  format_float = format_treatment_cents;
  command_hash = λ c. c.command_name ++ c.batch_id;
  payload_json = λ e. codes "{}";
  batch_result_json = λ r. r.batch.batch_id;
  read_batch_result = λ s. none;
  assignment_hash = λ c. c.command_name ++ c.resource_id;
  recovery_hash = λ a principal. a ++ principal;
  assignment_result_json = λ r. r.event_id;
  read_assignment_result = λ s. none;
  claim_hash = λ c. c.batch_id;
  claim_result_json = λ r. r.batch_id;
  read_claim_result = λ s. none;
  decimal_cents = λ s. 0;
}

abbrev pub empty_db : Db
empty_db = record {
  batches = [];
  commands = [];
  audits = [];
  outbox = [];
  claims = [];
  reservations = [];
  pools = [];
  assignments = [];
  actions = [];
  handoffs = [];
  directory = record {
    users = [];
    roles = [];
    organisations = [];
    scopes = [];
    matched_results = [];
    decisions = [];
    profiles = [];
    capabilities = [];
    zones = [];
  };
}
