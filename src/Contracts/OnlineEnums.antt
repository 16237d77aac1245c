-- ===== src/Contracts/OnlineEnums.antt =====
-- The enums of the online plane in libs/contracts/src/chatbot_contracts/enums.py.
pub data CleanOrigin : Type 0 where
  question upload external : CleanOrigin

pub data CodeLanguage : Type 0 where
  r_language python excel : CodeLanguage

pub data Verdict : Type 0 where
  pass fail error : Verdict

pub data ConfidenceLevel : Type 0 where
  level_1 level_2 level_3 : ConfidenceLevel

pub data EscalationStatus : Type 0 where
  opened external_answered expert_notified expert_answered closed : EscalationStatus

pub data CandidateOrigin : Type 0 where
  answer_time enrichment : CandidateOrigin

pub data CandidateStatus : Type 0 where
  pending accepted rejected : CandidateStatus

pub data EventType : Type 0 where
  answer_delta answer_final status_external_search status_expert_pending answer_expert error :
      EventType
