-- ===== src/Store/Boards.antt =====
-- The tables of migrations/004_dashboard.sql and their methods in apps/orchestrator/src/store.ts:
-- dispositions, tags and notes of jobs, saved views, manual actions, preferences.
-- A query, a preference and a detail are the members of their JSON.
pub mod Upserts
pub mod Versions
pub mod Refinement
use extension_jobs.Common.{
  ℕ, suc, ◌+◌, String, Bool, true, false, ◌&&◌, Option, none, some, List, [], ◌∷◌, ◌++◌, map, ltb,
  ◌==◌, str_eq, any, find, keep, sort, find_by, update_where, delete_where, changes, map_option,
  get_or, is_some, Result, ok, err, if◌then◌else◌,
}
use Prim.Native.String.{compare}
use text.Mathlib.Text.{is_lt}
use extension_jobs.Json.{Members}
use extension_jobs.Contracts.Dashboard.{Disposition}

pub record DispositionRow : Type 0 where
  pub job_id : String
  pub disposition : Disposition
  pub updated_at : ℕ

pub record TagRow : Type 0 where
  pub job_id : String
  pub tag : String
  pub created_at : ℕ

pub record NoteRow : Type 0 where
  pub job_id : String
  pub note : String
  pub version : ℕ
  pub updated_at : ℕ

pub record SavedJobView : Type 0 where
  pub id : String
  pub name : String
  pub query : Members
  pub version : ℕ
  pub created_at : ℕ
  pub updated_at : ℕ

pub data ManualStatus : Type 0 where
  open_item continued cancelled : ManualStatus

pub record ManualActionItem : Type 0 where
  pub id : String
  pub application_id : Option String
  pub kind : String
  pub status : ManualStatus
  pub title : String
  pub detail : Members
  pub created_at : ℕ
  pub updated_at : ℕ

pub record PreferenceRow : Type 0 where
  pub key : String
  pub settings : Members
  pub version : ℕ
  pub updated_at : ℕ

pub record Boards : Type 0 where
  pub dispositions : List DispositionRow
  pub tags : List TagRow
  pub notes : List NoteRow
  pub views : List SavedJobView
  pub actions : List ManualActionItem
  pub preferences : List PreferenceRow

-- `new Error('VERSION_CONFLICT')`
pub data VersionConflict : Type 0 where
  version_conflict : VersionConflict

-- INSERT … ON CONFLICT(key) DO UPDATE: the row with the key becomes `changed`, or `fresh` is added.
abbrev pub upsert : {A : Type 0} → (A → Bool) → (A → A) → A → List A → List A
upsert is_row changed fresh rows =
    if any is_row rows then update_where is_row changed rows else rows ++ fresh ∷ []

unfoldable pub set_job_disposition :
    ℕ → String → Disposition → List DispositionRow → List DispositionRow
set_job_disposition now job_id disposition rows =
    upsert (λ r. str_eq r.job_id job_id)
      (λ r. record r { disposition = disposition; updated_at = now })
      (record { job_id = job_id; disposition = disposition; updated_at = now }) rows

unfoldable pub get_job_disposition : String → List DispositionRow → Option Disposition
get_job_disposition job_id rows =
    map_option (λ r. r.disposition) (find_by (λ r. r.job_id) job_id rows)

-- INSERT OR IGNORE
abbrev insert_tag : ℕ → String → String → List TagRow → List TagRow
insert_tag now job_id tag rows =
    if any (λ r. str_eq r.job_id job_id && str_eq r.tag tag) rows
    then rows
    else rows ++ record { job_id = job_id; tag = tag; created_at = now } ∷ []

abbrev insert_tags : ℕ → String → List String → List TagRow → List TagRow
insert_tags now job_id [] rows = rows
insert_tags now job_id (tag ∷ tags) rows =
    insert_tags now job_id tags (insert_tag now job_id tag rows)

unfoldable pub add_job_tags : ℕ → List String → List String → List TagRow → List TagRow
add_job_tags now [] tags rows = rows
add_job_tags now (job_id ∷ ids) tags rows =
    add_job_tags now ids tags (insert_tags now job_id tags rows)

-- ORDER BY tag
unfoldable pub job_tags : String → List TagRow → List String
job_tags job_id rows =
    sort (λ s t. is_lt (compare s t)) (map (λ r. r.tag) (keep (λ r. str_eq r.job_id job_id) rows))

-- `expectedVersion !== undefined && (current?.version ?? 0) !== expectedVersion`
abbrev pub conflicts : Option ℕ → ℕ → Bool
conflicts none current = false
conflicts (some expected) current = if current == expected then false else true

abbrev pub note_version : String → List NoteRow → ℕ
note_version job_id rows =
    get_or (map_option (λ r. r.version) (find_by (λ r. r.job_id) job_id rows)) 0

unfoldable pub set_job_note :
    ℕ → String → String → Option ℕ → List NoteRow → Result VersionConflict (List NoteRow × ℕ)
set_job_note now job_id note expected rows =
    let current = note_version job_id rows in
    if conflicts expected current
    then err version_conflict
    else ok (
      upsert (λ r. str_eq r.job_id job_id)
          (λ r. record r { note = note; version = suc current; updated_at = now })
          (record { job_id = job_id; note = note; version = suc current; updated_at = now }) rows,
      suc current,
    )

unfoldable pub get_job_note : String → List NoteRow → Option (String × ℕ)
get_job_note job_id rows =
    map_option (λ r. (r.note, r.version)) (find_by (λ r. r.job_id) job_id rows)

abbrev pub view_version : Option SavedJobView → ℕ
view_version none = 0
view_version (some v) = v.version

abbrev pub view_created : ℕ → Option SavedJobView → ℕ
view_created now none = now
view_created now (some v) = v.created_at

-- `id` is the id of the view, or a new one.
unfoldable pub save_job_view :
    ℕ
    → String
    → String
    → Members
    → Option ℕ
    → List SavedJobView
    → Result VersionConflict (List SavedJobView × SavedJobView)
save_job_view now id name query expected rows =
    let existing = find_by (λ v. v.id) id rows in
    let saved : SavedJobView = record {
      id = id;
      name = name;
      query = query;
      version = suc (view_version existing);
      created_at = view_created now existing;
      updated_at = now;
    } in
    if conflicts expected (view_version existing)
    then err version_conflict
    else ok (
      upsert (λ v. str_eq v.id id)
          (λ v. record v {
            name = name;
            query = query;
            version = suc (view_version existing);
            updated_at = now;
          })
          saved rows,
      saved,
    )

unfoldable pub list_job_views : List SavedJobView → List SavedJobView
list_job_views rows = sort (λ v w. ltb w.updated_at v.updated_at) rows

unfoldable pub remove_job_view : String → List SavedJobView → List SavedJobView × Bool
remove_job_view id rows =
    (delete_where (λ v. str_eq v.id id) rows, changes (λ v. str_eq v.id id) rows == 1)

unfoldable pub save_manual_action :
    ℕ → ManualActionItem → List ManualActionItem → List ManualActionItem
save_manual_action now item rows =
    upsert (λ r. str_eq r.id item.id)
      (λ r. record r {
        status = item.status;
        title = item.title;
        detail = item.detail;
        updated_at = now;
      })
      (record item { created_at = now; updated_at = now }) rows

abbrev pub is_open : ManualStatus → Bool
is_open open_item = true
is_open _ = false

abbrev pub status_eq : ManualStatus → ManualStatus → Bool
status_eq open_item open_item = true
status_eq continued continued = true
status_eq cancelled cancelled = true
status_eq _ _ = false

abbrev of_status : Option ManualStatus → ManualActionItem → Bool
of_status none item = true
of_status (some status) item = status_eq item.status status

unfoldable pub list_manual_actions :
    Option ManualStatus → List ManualActionItem → List ManualActionItem
list_manual_actions status rows =
    sort (λ a b. ltb b.updated_at a.updated_at) (keep (of_status status) rows)

unfoldable pub update_manual_action :
    ℕ
    → String
    → ManualStatus
    → List ManualActionItem
    → List ManualActionItem × Option ManualActionItem
unfolding list_manual_actions
update_manual_action now id status rows =
    let updated =
      update_where (λ r. str_eq r.id id && is_open r.status)
        (λ r. record r { status = status; updated_at = now }) rows in
    (updated, find (λ r. str_eq r.id id) (list_manual_actions none updated))

abbrev pub preference_version : String → List PreferenceRow → ℕ
preference_version key rows = get_or (map_option (λ r. r.version) (find_by (λ r. r.key) key rows)) 0

unfoldable pub save_dashboard_preference :
    ℕ
    → String
    → Members
    → Option ℕ
    → List PreferenceRow
    → Result VersionConflict (List PreferenceRow × PreferenceRow)
save_dashboard_preference now key settings expected rows =
    let current = preference_version key rows in
    let saved : PreferenceRow = record {
      key = key;
      settings = settings;
      version = suc current;
      updated_at = now;
    } in
    if conflicts expected current
    then err version_conflict
    else ok (
      upsert (λ r. str_eq r.key key)
          (λ r. record r { settings = settings; version = suc current; updated_at = now }) saved
          rows,
      saved,
    )

unfoldable pub get_dashboard_preference : String → List PreferenceRow → Option PreferenceRow
get_dashboard_preference key rows = find_by (λ r. r.key) key rows
