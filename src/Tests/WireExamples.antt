-- ===== src/Tests/WireExamples.antt =====
-- The packed structs at concrete inputs.
use titan_lob.Prelude.{◌≡◌, arith, pos, negsuc}
use titan_lob.Protocol.Messages.{MsgHeader, MsgAddOrder, MsgAddIceberg, MsgCancel, MsgExecute}
use titan_lob.Protocol.Wire.{cast_add_order, cast_add_iceberg, cast_cancel, cast_execute}
use titan_lob.Protocol.Wire.Image.{
  bytes, IsHeader, image_add_order, IsAddOrder, image_add_iceberg, IsAddIceberg, image_cancel,
  IsCancel, image_execute, IsExecute,
}
use titan_lob.Protocol.Wire.RoundTrip.{
  cast-image_add_order, cast-image_add_iceberg, cast-image_cancel, cast-image_execute,
}

abbrev header : MsgHeader
header = record { type = 65; length = 44; timestamp = 1000 }

header-IsHeader : IsHeader header
header-IsHeader = omega arith

abbrev an_order : MsgAddOrder
an_order = record {
  header = header;
  order_id = 7;
  user_id = 9;
  side = 1;
  price = negsuc 4;
  quantity = pos 300;
}

an_order-IsAddOrder : IsAddOrder an_order
an_order-IsAddOrder = record {
  header_in = header-IsHeader;
  order_id_in = omega arith;
  user_id_in = omega arith;
  side_in = omega arith;
  price_in = omega arith;
  quantity_in = omega arith;
}

cast-image_add_order_example : cast_add_order (bytes (image_add_order an_order)) 0 ≡ an_order
cast-image_add_order_example = cast-image_add_order an_order an_order-IsAddOrder

abbrev an_iceberg : MsgAddIceberg
an_iceberg = record {
  header = header;
  order_id = 7;
  user_id = 9;
  side = 0;
  price = pos 500;
  total_quantity = pos 300;
  visible_quantity = pos 100;
}

an_iceberg-IsAddIceberg : IsAddIceberg an_iceberg
an_iceberg-IsAddIceberg = record {
  header_in = header-IsHeader;
  order_id_in = omega arith;
  user_id_in = omega arith;
  side_in = omega arith;
  price_in = omega arith;
  total_quantity_in = omega arith;
  visible_quantity_in = omega arith;
}

cast-image_add_iceberg_example :
    cast_add_iceberg (bytes (image_add_iceberg an_iceberg)) 0 ≡ an_iceberg
cast-image_add_iceberg_example = cast-image_add_iceberg an_iceberg an_iceberg-IsAddIceberg

abbrev a_cancel : MsgCancel
a_cancel = record { header = header; order_id = 7 }

a_cancel-IsCancel : IsCancel a_cancel
a_cancel-IsCancel = record { header_in = header-IsHeader; order_id_in = omega arith }

cast-image_cancel_example : cast_cancel (bytes (image_cancel a_cancel)) 0 ≡ a_cancel
cast-image_cancel_example = cast-image_cancel a_cancel a_cancel-IsCancel

abbrev an_execute : MsgExecute
an_execute = record {
  header = header;
  order_id = 7;
  user_id = 9;
  side = 1;
  price = pos 500;
  quantity = pos 300;
  time_in_force = 2;
}

an_execute-IsExecute : IsExecute an_execute
an_execute-IsExecute = record {
  header_in = header-IsHeader;
  order_id_in = omega arith;
  user_id_in = omega arith;
  side_in = omega arith;
  price_in = omega arith;
  quantity_in = omega arith;
  time_in_force_in = omega arith;
}

cast-image_execute_example : cast_execute (bytes (image_execute an_execute)) 0 ≡ an_execute
cast-image_execute_example = cast-image_execute an_execute an_execute-IsExecute
