-- ===== src/Ingest/Records.antt =====
-- The rows of packages/core/dfip_core/ingest/store.py. A batch's counters and its span of days are
-- records of their own here.
use dfip_v.Prelude.{ℕ, String, Bool, Option, none, ◌==◌, ◌||◌, string_eq, option_eq}
use dfip_v.Prelude.Dates.{Date, Moment}
use dfip_v.Prelude.Int.{ℤ}
use dfip_v.Transform.Extract.{Raw}

pub record SourceFileRecord : Type 0 where
  pub id : String
  pub client_id : String
  pub sha256 : String
  pub original_filename : String
  pub byte_size : ℕ
  pub source_kind : String
  pub uploaded_at : Moment
  pub storage_uri : Option String

pub record Layout : Type 0 where
  pub worksheet_name : Option String
  pub header_row : Option ℕ
  pub source_start_column : Option String

pub record Counts : Type 0 where
  pub row_count_declared : Option ℕ
  pub row_count_staged : ℕ
  pub row_count_rejected : ℕ
  pub empty_row_count : ℕ
  pub observed_day_min : Option Date
  pub observed_day_max : Option Date

pub record Progress : Type 0 where
  pub progress_stage : Option String
  pub progress_current : Option ℤ
  pub progress_total : Option ℤ
  pub progress_message : Option String
  pub progress_at : Option Moment

pub record BatchRecord : Type 0 where
  pub id : String
  pub source_file_id : String
  pub client_id : String
  pub status : String
  pub counts : Counts
  pub layout : Layout
  pub created_at : Moment
  pub completed_at : Option Moment
  pub error_summary : Option String
  pub progress : Progress
  pub cancel_requested : Bool

pub record StagedRowRecord : Type 0 where
  pub id : String
  pub batch_id : String
  pub source_row_number : ℕ
  pub raw : Raw
  pub campaign_id : Option String
  pub variation_id : Option String
  pub day : Option Date

pub record RejectedRowRecord : Type 0 where
  pub id : String
  pub batch_id : String
  pub source_row_number : Option ℕ
  pub raw : Option Raw
  pub reason_code : String
  pub reason_detail : Option String
  pub rejected_at : Moment

pub record VersionIds : Type 0 where
  pub campaign_label_version_id : Option String
  pub template_label_version_id : Option String
  pub rate_card_version_id : Option String
  pub label_group_version_id : Option String

pub record ProcessingRunRecord : Type 0 where
  pub id : String
  pub batch_id : String
  pub versions : VersionIds
  pub engine_version : Option String
  pub started_at : Moment
  pub finished_at : Option Moment
  pub status : String
  pub qa_verdict : Option String
  pub client_id : Option String
  pub error_summary : Option String
  pub progress_at : Option Moment

-- membership in SUCCESS_BATCH_STATUSES and RECOVERABLE_BATCH_STATUSES
abbrev pub is_success_status : String → Bool
is_success_status status = status == "staged" || (status == "validated" || status == "processed")

abbrev pub is_recoverable_status : String → Bool
is_recoverable_status status = status == "received" || (status == "staged" || status == "failed")

abbrev pub no_counts : Counts
no_counts = record {
  row_count_declared = none;
  row_count_staged = 0;
  row_count_rejected = 0;
  empty_row_count = 0;
  observed_day_min = none;
  observed_day_max = none;
}

abbrev pub no_layout : Layout
no_layout = record { worksheet_name = none; header_row = none; source_start_column = none }

abbrev pub no_progress : Progress
no_progress = record {
  progress_stage = none;
  progress_current = none;
  progress_total = none;
  progress_message = none;
  progress_at = none;
}
