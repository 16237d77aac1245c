-- ===== src/Contracts/Enums.antt =====
-- libs/contracts/src/chatbot_contracts/enums.py, the sets that the platform uses.
use ai_chatbot.Base.{Bool, true, false}

pub data SourceType : Type 0 where
  textbook lecture_note past_exam answer_key external_exercise : SourceType

pub data RegionKind : Type 0 where
  text figure scan table equation code : RegionKind

pub data KnowledgeBaseStatus : Type 0 where
  candidate published rejected : KnowledgeBaseStatus

abbrev pub is_candidate : KnowledgeBaseStatus → Bool
is_candidate candidate = true
is_candidate _ = false

abbrev pub is_published : KnowledgeBaseStatus → Bool
is_published published = true
is_published _ = false

abbrev pub is_external_exercise : SourceType → Bool
is_external_exercise external_exercise = true
is_external_exercise _ = false
