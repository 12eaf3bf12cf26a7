-- ===== src/Verdict.antt =====
-- crates/itan-core/src/ingest.rs: the verdicts that the ingestion hands to the linkage.
use i_tan_reclaim_space.Store.{SlotRef}

pub data BypassReason : Type 0 where
  too_small already_ingested prohibited unknown_type : BypassReason

pub data IngestVerdict : Type 0 where
  bypass : BypassReason → IngestVerdict
  unique : IngestVerdict
  duplicate : SlotRef → IngestVerdict
