-- ===== src/Params.antt =====
-- src/ref_model/params.py: the sizes of the memories, and those that `__post_init__` derives.
use nasdaq_itch_parser_order.Prelude.{ℕ, ◌+◌, ◌-◌, ◌^◌}

pub record Params : Type 0 where
  pub l3_log_addr_size : ℕ
  pub l3_log_line_size : ℕ
  pub l3_word_size : ℕ
  pub l3_log_cam_size : ℕ
  pub l2_log_mem_size : ℕ
  pub l2_block_log_w : ℕ
  pub bbo_log_depth : ℕ
  pub l3_log_mem_size : ℕ
  pub l3_cam_size : ℕ
  pub l2_mem_size : ℕ
  pub l2_block_w : ℕ
  pub l2_block_log_cnt : ℕ
  pub l2_block_cnt : ℕ
  pub bbo_depth : ℕ

-- `1 << n` is `2 ^ n`
abbrev pub post_init : ℕ → ℕ → ℕ → ℕ → ℕ → ℕ → ℕ → Params
post_init log_addr log_line word log_cam log_mem block_log_w log_depth = record {
  l3_log_addr_size = log_addr;
  l3_log_line_size = log_line;
  l3_word_size = word;
  l3_log_cam_size = log_cam;
  l2_log_mem_size = log_mem;
  l2_block_log_w = block_log_w;
  bbo_log_depth = log_depth;
  l3_log_mem_size = log_addr + log_line;
  l3_cam_size = 2 ^ log_cam;
  l2_mem_size = 2 ^ log_mem;
  l2_block_w = 2 ^ block_log_w;
  l2_block_log_cnt = log_mem - block_log_w;
  l2_block_cnt = 2 ^ (log_mem - block_log_w);
  bbo_depth = 2 ^ log_depth;
}

abbrev pub config : Params
config = post_init 11 3 130 3 11 5 1
