-- ===== src/Control/Frame/Sections.antt =====
-- The code of the two threads as sections of the machine of Control/Machine.
use intent_execution_layer.Text.{Text}
use intent_execution_layer.Double.{Double}
use intent_execution_layer.Platform.{Platform}
use intent_execution_layer.Intent.{Intent}
