-- ===== src/Service/Writes.antt =====
-- src/index.ts: the operations that forward one call to the core and publish a change.
use dsh_chaos.Common.{ℕ, String}
use dsh_chaos.Common.Acts.{Act}
use dsh_chaos.Wire.{Actor, Target, Task, TaskStatus}
use dsh_chaos.Service.Core.{Core, Platform}
use dsh_chaos.Service.State.{Service, require_handle, published}

module _ {W : Type 0} (core : Core W) (platform : Platform W) where
  unfoldable pub create_user : (handle display_name : String) → Act (Service W) Actor
  create_user h d = published platform (require_handle (core.create_user h d))

  unfoldable pub ensure_user : (handle display_name : String) → Act (Service W) Actor
  ensure_user h d = published platform (require_handle (core.ensure_user h d))

  unfoldable pub create_agent :
      (handle display_name workspace_path : String) → Act (Service W) Actor
  create_agent h d p = published platform (require_handle (core.create_agent h d p))

  unfoldable pub create_channel : (name description creator_id : String) → Act (Service W) Target
  create_channel n d c = published platform (require_handle (core.create_channel n d c))

  unfoldable pub update_channel :
      (target_id actor_id name description expected_version : String) → Act (Service W) Target
  update_channel t a n d v = published platform (require_handle (core.update_channel t a n d v))

  unfoldable pub archive_channel :
      (target_id actor_id expected_version : String) → Act (Service W) Target
  archive_channel t a v = published platform (require_handle (core.archive_channel t a v))

  unfoldable pub restore_channel :
      (target_id actor_id expected_version : String) → Act (Service W) Target
  restore_channel t a v = published platform (require_handle (core.restore_channel t a v))

  unfoldable pub delete_channel :
      (target_id actor_id expected_version : String) → Act (Service W) Target
  delete_channel t a v = published platform (require_handle (core.delete_channel t a v))

  unfoldable pub create_direct : (actor_id peer_id : String) → Act (Service W) Target
  create_direct a p = published platform (require_handle (core.create_direct a p))

  unfoldable pub create_thread : (root_message_id actor_id : String) → Act (Service W) Target
  create_thread r a = published platform (require_handle (core.create_thread r a))

  unfoldable pub follow_thread : (thread_target_id actor_id : String) → Act (Service W) (Unit {0})
  follow_thread t a = published platform (require_handle (core.follow_thread t a))

  unfoldable pub unfollow_thread : (thread_target_id actor_id : String) → Act (Service W) (Unit {0})
  unfollow_thread t a = published platform (require_handle (core.unfollow_thread t a))

  unfoldable pub add_member : (target_id actor_id added_by : String) → Act (Service W) (Unit {0})
  add_member t a b = published platform (require_handle (core.add_member t a b))

  unfoldable pub inbox_done : (actor_id target_id through_seq : String) → Act (Service W) (Unit {0})
  inbox_done a t q = published platform (require_handle (core.inbox_done a t q))

  unfoldable pub inbox_done_all : (actor_id : String) → Act (Service W) ℕ
  inbox_done_all a = published platform (require_handle (core.inbox_done_all a))

  unfoldable pub create_task : (message_id actor_id : String) → Act (Service W) Task
  create_task m a = published platform (require_handle (core.create_task m a))

  unfoldable pub claim_task : (message_id actor_id : String) → Act (Service W) Task
  claim_task m a = published platform (require_handle (core.claim_task m a))

  unfoldable pub unclaim_task :
      (message_id actor_id expected_version : String) → Act (Service W) Task
  unclaim_task m a v = published platform (require_handle (core.unclaim_task m a v))

  unfoldable pub update_task_status :
      (message_id actor_id : String)
      → TaskStatus
      → (expected_version : String) → Act (Service W) Task
  update_task_status m a s v = published platform (require_handle (core.update_task_status m a s v))
