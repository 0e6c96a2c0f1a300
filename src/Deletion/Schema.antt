-- ===== src/Deletion/Schema.antt =====
-- The tables that deletion reads and writes, and when a row has expired: the querysets `expired` and
-- `not_expired` of debusine/db/models/work_requests.py and debusine/db/models/artifacts.py.
use debusine.Prelude.{
  ℕ, ◌+◌, Bool, false, not, ◌&&◌, ◌||◌, Option, none, some, List, [], ◌∷◌, ◌==◌, leb, ltb,
  if◌then◌else◌,
}
use debusine.WorkRequests.{WorkRequest}

pub record Workspace : Type 0 where
  pub id : ℕ
  pub default_expiration_delay : ℕ

pub record Artifact : Type 0 where
  pub id : ℕ
  pub workspace : ℕ
  pub created_at : ℕ
  pub expiration_delay : Option ℕ

-- A reference between artifacts, from `artifact` to `target`.
pub record ArtifactRelation : Type 0 where
  pub artifact : ℕ
  pub target : ℕ

pub data RetainsArtifacts : Type 0 where
  never workflow always : RetainsArtifacts

pub record Collection : Type 0 where
  pub id : ℕ
  pub retains_artifacts : RetainsArtifacts
  pub full_history_retention_period : Option ℕ
  pub metadata_only_retention_period : Option ℕ

pub record CollectionItem : Type 0 where
  pub parent_collection : ℕ
  pub artifact : Option ℕ
  pub created_by_workflow : Option ℕ
  pub removed_by_workflow : Option ℕ
  pub removed_at : Option ℕ

pub record FileInArtifact : Type 0 where
  pub id : ℕ
  pub artifact : ℕ
  pub file : ℕ

pub record FileInStore : Type 0 where
  pub file : ℕ
  pub store : ℕ

pub record Tables : Type 0 where
  pub work_requests : List WorkRequest
  pub workspaces : List Workspace
  pub artifacts : List Artifact
  pub relations : List ArtifactRelation
  pub collections : List Collection
  pub items : List CollectionItem
  pub files_in_artifacts : List FileInArtifact
  -- the uploads in progress, by the file in an artifact that each is for
  pub file_uploads : List ℕ
  pub files_in_stores : List FileInStore
  pub files : List ℕ

abbrev default_delay : ℕ → List Workspace → Option ℕ
default_delay k [] = none
default_delay k (w ∷ ws) = if w.id == k then some w.default_expiration_delay else default_delay k ws

-- `Coalesce("expiration_delay", "workspace__default_expiration_delay")`.
abbrev pub effective_delay : Tables → Option ℕ → ℕ → Option ℕ
effective_delay t none workspace = default_delay workspace t.workspaces
effective_delay t (some delay) workspace = some delay

-- `exclude(delay=0).filter(created_at__lte=at - delay)`.
abbrev pub has_expired_at : ℕ → ℕ → Option ℕ → Bool
has_expired_at at_time created none = false
has_expired_at at_time created (some delay) = not (delay == 0) && leb (created + delay) at_time

-- `filter(Q(delay=0) | Q(created_at__gt=at - delay))`.
abbrev pub is_unexpired_at : ℕ → ℕ → Option ℕ → Bool
is_unexpired_at at_time created none = false
is_unexpired_at at_time created (some delay) = delay == 0 || ltb at_time (created + delay)

-- `WorkRequestQuerySet.expired`, for one row.
unfoldable pub work_request_expired : Tables → ℕ → WorkRequest → Bool
work_request_expired t at_time w =
    has_expired_at at_time w.created_at (effective_delay t w.expiration_delay w.workspace)

-- `ArtifactQuerySet.expired` and `not_expired`, for one row.
unfoldable pub artifact_expired : Tables → ℕ → Artifact → Bool
artifact_expired t at_time a =
    has_expired_at at_time a.created_at (effective_delay t a.expiration_delay a.workspace)

unfoldable pub artifact_unexpired : Tables → ℕ → Artifact → Bool
artifact_unexpired t at_time a =
    is_unexpired_at at_time a.created_at (effective_delay t a.expiration_delay a.workspace)
