-- ===== src/Evolution/Samples.antt =====
-- A whole number for each float, one entry and one event in JSON, and a loop over them.
pub mod Logs
pub mod Decisions
pub mod Traffic
pub mod Arms
use pads_v.Common.{
  Bool-cases, inl, inr, ℕ, zero, suc, ◌+◌, ◌-◌, ◌/◌, ◌≡◌, refl, ap, ap₂, String, Bool, true, false,
  ◌&&◌, Option, none, some, List, [], ◌∷◌, arith, ◌==◌, eq_iff, eqb, if◌then◌else◌,
}
use pads_v.Common.Float.{Float}
use pads_v.Common.Int.{
  ℤ, pos, negsuc, pos_part, neg_part, ◌+ℤ◌, ◌-ℤ◌, ◌*ℤ◌, ltb_ℤ, leb_ℤ, eqb_ℤ, eqb_ℤ-eq,
}
use pads_v.Evolution.Types.{Candidate, Event, Codec, IsFaithful, build_reason, mode_bandit}
use pads_v.Evolution.Detector.{new_detector}
use pads_v.Evolution.Gate.{new_gate}
use pads_v.Evolution.Wal.{Entry, Digest, Wal}
use pads_v.Evolution.File.{written, empty_file}
use pads_v.Evolution.Loop.{Loop, World}

abbrev pub whole : Float
whole = record {
  F = ℤ;
  zero = pos 0;
  of_int = λ n. n;
  ratio = λ n d. pos (pos_part n / pos_part d);
  add = ◌+ℤ◌;
  sub = ◌-ℤ◌;
  mul = ◌*ℤ◌;
  div = λ a b. pos (pos_part a / pos_part b);
  min = λ a b. if ltb_ℤ b a then b else a;
  abs = λ a. pos (pos_part a + neg_part a);
  sqrt = λ a. a;
  log = λ a. a;
  log2 = λ a. a;
  lt = ltb_ℤ;
  le = leb_ℤ;
  eq = eqb_ℤ;
  to_int = λ a. a;
  show_int = λ a. "0";
  show_2 = λ a. "0";
}

abbrev pub digest : Digest ℤ
digest e = "hash"

-- The entry of the first evolution below.
abbrev pub first_entry : Entry ℤ
first_entry = record {
  candidate_score = pos 3;
  current_score = pos 2;
  weight = pos 1;
  mode = mode_bandit;
  timestamp = 7;
  hash = "hash";
  prev_hash = "";
}

abbrev same_entry : Entry ℤ → Entry ℤ → Bool
same_entry a b =
    eqb_ℤ a.candidate_score b.candidate_score
    && eqb_ℤ a.current_score b.current_score
    && eqb_ℤ a.weight b.weight
    && a.mode == b.mode
    && eqb a.timestamp b.timestamp
    && a.hash == b.hash
    && a.prev_hash == b.prev_hash

same_entry-eq : (a b : Entry ℤ) → same_entry a b ≡ true → a ≡ b
same_entry-eq a b h = ground (
  arith,
  eqb_ℤ-eq a.candidate_score b.candidate_score,
  eqb_ℤ-eq a.current_score b.current_score,
  eqb_ℤ-eq a.weight b.weight,
  eq_iff a.mode b.mode,
  eq_iff a.hash b.hash,
  eq_iff a.prev_hash b.prev_hash,
)

-- JSON that knows one value.
abbrev pub one_value : {A : Type 0} → (A → A → Bool) → A → Codec A
one_value same a = record {
  marshal = λ b. if same b a then some "{}" else none;
  unmarshal = λ line. if line == "{}" then some a else none;
}

one_value-IsFaithful :
    {A : Type 0} (same : A → A → Bool) (a : A)
    → ((b : A) → same b a ≡ true → b ≡ a)
    → IsFaithful (one_value same a)
one_value-IsFaithful same a h = record {
  read_back = λ b line text. ground (arith, h b, eq_iff line "{}");
}

abbrev pub entries : Codec (Entry ℤ)
entries = one_value same_entry first_entry

pub entries-IsFaithful : IsFaithful entries
entries-IsFaithful = one_value-IsFaithful same_entry first_entry (λ b. same_entry-eq b first_entry)

-- The event of the first evolution.
abbrev pub first_event : Event ℤ
first_event = record {
  sequence = 1;
  candidate_score = pos 3;
  current_score = pos 2;
  weight = pos 1;
  mode = mode_bandit;
  bandit_seed = pos 0;
  gate_variance = pos 0;
  gate_threshold = pos 0;
  stability_score = pos 3;
  reason = build_reason whole true (pos 3) (pos 2) (pos 1);
}

abbrev same_event : Event ℤ → Event ℤ → Bool
same_event a b =
    eqb a.sequence b.sequence
    && eqb_ℤ a.candidate_score b.candidate_score
    && eqb_ℤ a.current_score b.current_score
    && eqb_ℤ a.weight b.weight
    && a.mode == b.mode
    && eqb_ℤ a.bandit_seed b.bandit_seed
    && eqb_ℤ a.gate_variance b.gate_variance
    && eqb_ℤ a.gate_threshold b.gate_threshold
    && eqb_ℤ a.stability_score b.stability_score
    && a.reason == b.reason

same_event-eq : (a b : Event ℤ) → same_event a b ≡ true → a ≡ b
same_event-eq a b h = ground (
  arith,
  eqb_ℤ-eq a.candidate_score b.candidate_score,
  eqb_ℤ-eq a.current_score b.current_score,
  eqb_ℤ-eq a.weight b.weight,
  eq_iff a.mode b.mode,
  eqb_ℤ-eq a.bandit_seed b.bandit_seed,
  eqb_ℤ-eq a.gate_variance b.gate_variance,
  eqb_ℤ-eq a.gate_threshold b.gate_threshold,
  eqb_ℤ-eq a.stability_score b.stability_score,
  eq_iff a.reason b.reason,
)

-- The same evolution with the next number.
abbrev second_event : Event ℤ
second_event = record first_event { sequence = 2 }

-- JSON that knows both.
abbrev pub events : Codec (Event ℤ)
events = record {
  marshal = λ e.
      if same_event e first_event
      then some "1"
      else if same_event e second_event
      then some "2"
      else none;
  unmarshal = λ line.
      if line == "1" then some first_event else if line == "2" then some second_event else none;
}

pub events-IsFaithful : IsFaithful events
events-IsFaithful = record {
  read_back = λ e line text. elim (Bool-cases (same_event e first_event)) [
    | inl one ↦
        let read : "1" ≡ line = ground (arith, one) in
        rw (← read, same_event-eq e first_event one) refl
    | inr other ↦ elim (Bool-cases (same_event e second_event)) [
      | inl two ↦
          let read : "2" ≡ line = ground (arith, other, two) in
          rw (← read, same_event-eq e second_event two) refl
      | inr unknown ↦ absurd (ground (arith, other, unknown))
    ]
  ];
}

abbrev pub calm_world : World
calm_world = record { now = 7; wal_disk = written; store_opened = true; store_written = none }

abbrev pub empty_wal : Wal ℤ
empty_wal = record { entries = []; file = some empty_file }

abbrev pub candidate : ℕ → Candidate
candidate n = record { score = pos n }
