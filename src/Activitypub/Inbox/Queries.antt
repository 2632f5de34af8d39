-- ===== src/Activitypub/Inbox/Queries.antt =====
-- The SQL of core/src/activitypub/inbox.rs, as its literals have it.
use dais.Base.{Text, bytes}

abbrev pub insert_notification : Text
insert_notification =
    bytes
      "\n        INSERT INTO notifications (\n            id, type, actor_id, actor_username, actor_display_name,\n            actor_avatar_url, post_id, activity_id, content, created_at, read\n        ) VALUES (?1, ?2, ?3, ?4, ?5, ?6, ?7, ?8, ?9, ?10, 0)\n    "

abbrev pub insert_follower : Text
insert_follower =
    bytes
      "\n        INSERT INTO followers (\n            id, actor_id, follower_actor_id, follower_inbox, follower_shared_inbox, status\n        ) VALUES (?1, ?2, ?3, ?4, ?5, 'pending')\n        ON CONFLICT(actor_id, follower_actor_id) DO UPDATE SET\n            follower_inbox = excluded.follower_inbox,\n            follower_shared_inbox = excluded.follower_shared_inbox,\n            updated_at = CURRENT_TIMESTAMP\n    "

abbrev pub delete_follower : Text
delete_follower = bytes "DELETE FROM followers WHERE follower_actor_id = ?1"

abbrev pub delete_interaction : Text
delete_interaction = bytes "DELETE FROM interactions WHERE id = ?1"

abbrev pub update_timeline_post : Text
update_timeline_post =
    bytes
      "\n        UPDATE timeline_posts\n        SET content = ?1,\n            content_html = ?2,\n            updated_at = ?3,\n            raw_object = ?4,\n            encrypted_message = ?5,\n            deleted_at = NULL\n        WHERE object_id = ?6\n    "

abbrev pub delete_timeline_post : Text
delete_timeline_post = bytes "UPDATE timeline_posts SET deleted_at = ?1 WHERE object_id = ?2"

abbrev pub count_following : Text
count_following =
    bytes
      "SELECT COUNT(*) AS count FROM following WHERE target_actor_id = ?1 AND status = 'accepted'"

abbrev pub select_our_post : Text
select_our_post = bytes "SELECT id FROM posts WHERE id = ?1"

abbrev pub insert_timeline_post : Text
insert_timeline_post =
    bytes
      "\n        INSERT INTO timeline_posts (\n            id, object_id, actor_id, actor_username, actor_display_name,\n            actor_avatar_url, content, content_html, visibility, in_reply_to,\n            published_at, raw_object, raw_activity, encrypted_message, protocol\n        ) VALUES (?1, ?2, ?3, ?4, ?5, ?6, ?7, ?8, ?9, ?10, ?11, ?12, ?13, ?14, 'activitypub')\n        ON CONFLICT(object_id) DO UPDATE SET\n            actor_id = excluded.actor_id,\n            actor_username = excluded.actor_username,\n            actor_display_name = excluded.actor_display_name,\n            actor_avatar_url = excluded.actor_avatar_url,\n            content = excluded.content,\n            content_html = excluded.content_html,\n            visibility = excluded.visibility,\n            in_reply_to = excluded.in_reply_to,\n            published_at = excluded.published_at,\n            raw_object = excluded.raw_object,\n            raw_activity = excluded.raw_activity,\n            encrypted_message = excluded.encrypted_message,\n            deleted_at = NULL\n    "

abbrev pub insert_conversation : Text
insert_conversation =
    bytes
      "\n        INSERT OR IGNORE INTO conversations (\n            id, participants, last_message_at\n        ) VALUES (?1, ?2, ?3)\n    "

abbrev pub update_conversation : Text
update_conversation = bytes "UPDATE conversations SET last_message_at = ?1 WHERE id = ?2"

abbrev pub insert_participant : Text
insert_participant =
    bytes
      "\n            INSERT OR IGNORE INTO conversation_participants (\n                conversation_id, actor_id\n            ) VALUES (?1, ?2)\n        "

abbrev pub insert_direct_message : Text
insert_direct_message =
    bytes
      "\n        INSERT OR IGNORE INTO direct_messages (\n            id, conversation_id, sender_id, content, published_at\n        ) VALUES (?1, ?2, ?3, ?4, ?5)\n    "

abbrev pub insert_e2ee_conversation : Text
insert_e2ee_conversation =
    bytes
      "\n        INSERT INTO e2ee_conversations (id, protocol, participants, created_at, updated_at)\n        VALUES (?1, ?2, ?3, ?4, ?4)\n        ON CONFLICT(id) DO UPDATE SET updated_at = ?4\n        "

abbrev pub insert_e2ee_message : Text
insert_e2ee_message =
    bytes
      "\n        INSERT OR IGNORE INTO e2ee_messages (\n            id, conversation_id, sender_actor_id, sender_device_id, ciphertext, aad, created_at\n        ) VALUES (?1, ?2, ?3, ?4, ?5, ?6, ?7)\n        "

abbrev pub insert_reply : Text
insert_reply =
    bytes
      "\n        INSERT OR IGNORE INTO replies (\n            id, post_id, actor_id, actor_username, actor_display_name,\n            actor_avatar_url, content, published_at, visibility,\n            moderation_status, moderation_score, moderation_flags,\n            moderation_checked_at, hidden\n        ) VALUES (?1, ?2, ?3, ?4, ?5, ?6, ?7, ?8, ?9, ?10, ?11, ?12, ?13, ?14)\n    "

abbrev pub insert_like : Text
insert_like =
    bytes
      "\n        INSERT OR IGNORE INTO interactions (\n            id, type, actor_id, actor_username, actor_display_name,\n            actor_avatar_url, object_url, created_at\n        ) VALUES (?1, 'like', ?2, ?3, ?4, ?5, ?6, ?7)\n    "

abbrev pub insert_boost : Text
insert_boost =
    bytes
      "\n        INSERT OR IGNORE INTO interactions (\n            id, type, actor_id, actor_username, actor_display_name,\n            actor_avatar_url, object_url, created_at\n        ) VALUES (?1, 'boost', ?2, ?3, ?4, ?5, ?6, ?7)\n    "

abbrev pub accept_following : Text
accept_following =
    bytes
      "UPDATE following SET status = 'accepted', accepted_at = CURRENT_TIMESTAMP WHERE target_actor_id = ?1 AND status = 'pending'"

abbrev pub reject_following : Text
reject_following = bytes "DELETE FROM following WHERE target_actor_id = ?1 AND status = 'pending'"
