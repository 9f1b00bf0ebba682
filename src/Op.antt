-- ===== src/Op.antt =====
-- The operations of the sync log: `OpKind` and `InboxOp` of rust-client/src/protocol.rs.
use obsidian_sync_engine.Base.{ℕ, Text, codes, Bool, true, false, ◌≡◌, ◌↔◌, arith}
use obsidian_sync_engine.Base.Tests.{Eq}

pub data OpKind : Type 0 where
  put delete : OpKind

abbrev op_beq : OpKind → OpKind → Bool
op_beq put put = true
op_beq put delete = false
op_beq delete put = false
op_beq delete delete = true

pub op_beq_iff : (a b : OpKind) → (op_beq a b ≡ true) ↔ (a ≡ b)
op_beq_iff a b = ground arith

instance abbrev pub op_eq : Eq OpKind
op_eq = record { beq = op_beq; beq_iff = op_beq_iff }

-- OpKind::as_str
abbrev pub as_str : OpKind → Text
as_str put = codes "put"
as_str delete = codes "delete"

pub record InboxOp : Type 0 where
  pub rev : ℕ
  pub op : OpKind
  pub path : Text
