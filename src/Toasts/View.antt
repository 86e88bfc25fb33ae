-- ===== src/Toasts/View.antt =====
-- How notifications are shown, and the shorthands for them (frontend/src/context/ToastContext.tsx).
use ota_robot_system.Base.{
  ℕ, String, Bool, true, false, Option, none, some, List, map, truthy, if◌then◌else◌, ToastType,
  success, error, warning, info,
}
use ota_robot_system.Toasts.{ToastItem, Toasts, make_toast}

-- `toast.success` and its kin: the id is an argument.
unfoldable pub shorthand : ToastType → String → String → Option String → Option ℕ → ToastItem
shorthand kind id title message duration = make_toast id title message (some kind) duration

-- `typeConfig`.
pub record TypeConfig : Type 0 where
  pub border : String
  pub bg : String
  pub badge_bg : String
  pub title_color : String

unfoldable pub type_config : ToastType → TypeConfig
type_config success = record {
  border = "border-semantic-success/40";
  bg = "bg-surface-1/95 shadow-semantic-success/5";
  badge_bg = "bg-semantic-success/15 text-semantic-success";
  title_color = "text-semantic-success";
}
type_config error = record {
  border = "border-semantic-error/40";
  bg = "bg-surface-1/95 shadow-semantic-error/5";
  badge_bg = "bg-semantic-error/15 text-semantic-error";
  title_color = "text-semantic-error";
}
type_config warning = record {
  border = "border-semantic-warning/40";
  bg = "bg-surface-1/95 shadow-semantic-warning/5";
  badge_bg = "bg-semantic-warning/15 text-semantic-warning";
  title_color = "text-semantic-warning";
}
type_config info = record {
  border = "border-primary/40";
  bg = "bg-surface-1/95 shadow-primary/5";
  badge_bg = "bg-primary/15 text-primary";
  title_color = "text-primary";
}

-- `item.type === "error" || item.type === "warning"`.
is_urgent : ToastType → Bool
is_urgent success = false
is_urgent error = true
is_urgent warning = true
is_urgent info = false

pub record Shown : Type 0 where
  pub role : String
  pub aria_live : String
  pub config : TypeConfig
  pub title : String
  pub message : Option String

shown_message : Option String → Option String
shown_message none = none
shown_message (some m) = if truthy m then some m else none

unfoldable pub shown : ToastItem → Shown
unfolding is_urgent shown_message type_config
shown t = record {
  role = if is_urgent t.kind then "alert" else "status";
  aria_live = if is_urgent t.kind then "assertive" else "polite";
  config = type_config t.kind;
  title = t.title;
  message = shown_message t.message;
}

-- The notifications on the screen, from the top.
unfoldable pub screen : Toasts → List Shown
unfolding shown
screen s = map shown s.items
