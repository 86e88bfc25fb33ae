-- ===== src/Badge/Metric.antt =====
-- The cards above a table (frontend/src/components/MetricCard.tsx).
use ota_robot_system.Base.{ℕ, String, Option, get_or}

pub data Color : Type 0 where
  cyan emerald amber rose blue purple : Color

pub record Styles : Type 0 where
  pub bg : String
  pub text : String
  pub border : String

unfoldable pub color_map : Color → Styles
color_map cyan = record {
  bg = "bg-primary/10";
  text = "text-primary-hover";
  border = "border-primary/20";
}
color_map emerald = record {
  bg = "bg-semantic-success/10";
  text = "text-semantic-success";
  border = "border-semantic-success/20";
}
color_map amber = record {
  bg = "bg-semantic-warning/10";
  text = "text-semantic-warning";
  border = "border-semantic-warning/20";
}
color_map rose = record {
  bg = "bg-semantic-error/10";
  text = "text-semantic-error";
  border = "border-semantic-error/20";
}
color_map blue = record {
  bg = "bg-primary/10";
  text = "text-primary";
  border = "border-primary/20";
}
color_map purple = record {
  bg = "bg-semantic-secure/10";
  text = "text-semantic-secure";
  border = "border-semantic-secure/20";
}

pub record MetricCard : Type 0 where
  pub title : String
  pub value : ℕ
  pub subtitle : Option String
  pub styles : Styles

-- The colour is blue where none is given.
unfoldable pub metric_card : String → ℕ → Option String → Option Color → MetricCard
unfolding color_map
metric_card title value subtitle color = record {
  title = title;
  value = value;
  subtitle = subtitle;
  styles = color_map (get_or color blue);
}
