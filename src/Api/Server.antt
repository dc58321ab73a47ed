-- ===== src/Api/Server.antt =====
-- internal/api/server.go and convert.go over the task service. A message of the protocol is its
-- fields that the handlers read; `none` for a nested message or an optional field is its absence.
use gogolook_task_api.Prelude.{ℕ, String, Option, none, some, List, map}
use gogolook_task_api.Prelude.Int.{ℤ}
use gogolook_task_api.Apperr.{Err, field_error}
use gogolook_task_api.Task.{
  Task, Result, ok, err, Page, Repository, create_task, update_task, delete_task,
}
use gogolook_task_api.Task.Token.{Codec, encode_cursor}
use gogolook_task_api.Task.Listing.{list_tasks}
use gogolook_task_api.Api.Errors.{Code, to_connect_error}

-- `taskv1.Task`.
pub record WireTask : Type 0 where
  pub id : List ℕ
  pub name : List ℕ
  pub status : ℤ
  pub created_at : ℕ
  pub updated_at : ℕ
  pub version : ℤ

pub record ListRequest : Type 0 where
  pub status : Option ℤ
  pub page_size : ℤ
  pub page_token : List ℕ

pub record ListReply : Type 0 where
  pub result : List WireTask
  pub next_page_token : List ℕ

pub record UpdateRequest : Type 0 where
  pub id : List ℕ
  pub task : Option WireTask

-- What a call answers.
pub data Reply (A : Type 0) : Type 0 where
  replies : A → Reply A
  fails : Code × String → Reply A

-- `toProto`.
unfoldable pub to_proto : Codec → Task → WireTask
to_proto codec t = record {
  id = codec.id_text t.id;
  name = t.name;
  status = t.status;
  created_at = t.created_at;
  updated_at = t.updated_at;
  version = t.version;
}

abbrev pub reply : {A B : Type 0} → (A → B) → Result A → Reply B
reply f (ok a) = replies (f a)
reply f (err e) = fails (to_connect_error e)

abbrev pub reply_call : {A B S : Type 0} → (A → B) → Result A × S → Reply B × S
reply_call f (r, s) = (reply f r, s)

abbrev pub refuse : {A S : Type 0} → Err → S → Reply A × S
refuse e s = (fails (to_connect_error e), s)

-- `parseID`.
abbrev pub id_or : Option ℕ → Result ℕ
id_or none = err (field_error "id" "must be a UUID")
id_or (some i) = ok i

unfoldable pub parse_id : Codec → List ℕ → Result ℕ
parse_id codec raw = id_or (codec.parse_id raw)

unfoldable pub page_reply : Codec → Option Page → Option ListReply
unfolding to_proto encode_cursor
page_reply codec none = none
page_reply codec (some p) =
    some (record {
      result = map (to_proto codec) p.tasks;
      next_page_token = encode_cursor codec p.next;
    })

module _ (codec : Codec) {S : Type 0} (repo : Repository S) (ctx : Option Err) where
  -- `ListTasks`; `none` is a panic of the repository.
  unfoldable pub list : ListRequest → S → Reply (Option ListReply)
  unfolding page_reply list_tasks
  list req s = reply (page_reply codec) (
      list_tasks codec repo ctx
        (record { status = req.status; page_size = req.page_size; page_token = req.page_token }) s)

  -- `CreateTask`.
  unfoldable pub create : (now new_id : ℕ) → Option WireTask → S → Reply WireTask × S
  unfolding create_task to_proto
  create now new_id none s = refuse (field_error "task" "must be present") s
  create now new_id (some t) s =
      reply_call (to_proto codec)
        (create_task repo ctx now new_id (record { name = t.name; status = t.status }) s)

  unfoldable pub update_parsed : (now : ℕ) → Result ℕ → Option WireTask → S → Reply WireTask × S
  unfolding update_task to_proto
  update_parsed now (err e) t s = refuse e s
  update_parsed now (ok i) none s = refuse (field_error "task" "must be present") s
  update_parsed now (ok i) (some t) s = reply_call (to_proto codec) (
      update_task repo ctx now
        (record { id = i; name = t.name; status = t.status; expected_version = t.version }) s)

  -- `UpdateTask`.
  unfoldable pub update : (now : ℕ) → UpdateRequest → S → Reply WireTask × S
  unfolding update_parsed parse_id
  update now req s = update_parsed now (parse_id codec req.id) req.task s

  unfoldable pub delete_parsed : Result ℕ → S → Reply (Unit {0}) × S
  unfolding delete_task
  delete_parsed (err e) s = refuse e s
  delete_parsed (ok i) s = reply_call (λ u. u) (delete_task repo ctx i s)

  -- `DeleteTask`.
  unfoldable pub delete : List ℕ → S → Reply (Unit {0}) × S
  unfolding delete_parsed parse_id
  delete raw s = delete_parsed (parse_id codec raw) s
