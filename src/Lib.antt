-- ===== src/Lib.antt =====
-- Bluetoe, a Bluetooth LE peripheral stack: a model of its link layer, of its security manager,
-- of its GATT server and of what they stand on.
--
-- The parts and how they work together. A radio keeps two ring buffers of link layer PDUs and the sequence
-- numbers of a connection; the link layer puts PDUs into the one and takes them from the other, plans
-- the connection events and picks their channels, and a white list filters who may connect.
--   PduRing              bluetoe/link_layer/include/bluetoe/ring_buffer.hpp (`pdu_ring_buffer`) and the layout of
--                        default_pdu_layout.hpp beside it. A ring is its two positions; the memory is a byte at each
--                        offset (Shared/Memory, with `read_16bit` and `write_16bit` of
--                        bluetoe/utility/include/bluetoe/bits.hpp). The abstract view is a queue of PDUs (PduRing/Fifo).
--   PduBuffer            bluetoe/link_layer/include/bluetoe/ll_data_pdu_buffer.hpp (`ll_data_pdu_buffer`): both rings,
--                        sequence numbers, acknowledgement and empty PDUs. The abstract view is the list of the
--                        frames that are not acknowledged (PduBuffer/Frames).
--   SduBuffer            bluetoe/link_layer/include/bluetoe/ll_l2cap_sdu_buffer.hpp (`ll_l2cap_sdu_buffer`): SDUs of the
--                        L2CAP layer, in fragments that are link layer PDUs. The PDU buffer under it is taken in the
--                        abstract view of PduRing: a queue of PDUs that were received, and room for some to send.
--   ChannelMap           bluetoe/link_layer/channel_map.cpp (`channel_map`): the channels of the connection events.
--   DeltaTime            bluetoe/link_layer/delta_time.cpp (`delta_time`): time spans of 32 bits.
--   PeripheralLatency    bluetoe/link_layer/include/bluetoe/peripheral_latency.hpp: which connection event is next, with
--                        the channel index, event counter and time that belong to it; it computes with DeltaTime.
--   Address              bluetoe/utility/address.cpp and bluetoe/utility/include/bluetoe/address.hpp: device addresses.
--   WhiteList            bluetoe/link_layer/include/bluetoe/white_list.hpp: the list in software, over Address. The
--                        abstract view is the set of the addresses it holds.
--   WriteQueue           bluetoe/write_queue.hpp (`write_queue`): the prepared writes of one client of the GATT server,
--                        one behind the other in a buffer. The abstract view is a list of elements.
--   IoCapabilities       bluetoe/sm/include/bluetoe/io_capabilities.hpp: what a device can show and ask for, and which
--                        pairing algorithm that gives.
--   Pairing              bluetoe/sm/include/bluetoe/security_manager.hpp and security_connection_data.hpp beside it: the
--                        state of a pairing (Data), the handlers of the requests (Requests, Legacy, Lesc) and the managers
--                        that dispatch to them (Manager). An event of a connection is a step; the diagram of the
--                        states is a relation (Diagram).
--   NotificationQueue    bluetoe/notification_queue.hpp: the notifications and indications that are to be sent, by priority,
--                        two bits for each characteristic (Bits), searched in a circle (Circle). The abstract view
--                        is the set of what is pending (Levels).
--   L2cap                bluetoe/l2cap.hpp: SDUs go to the channels that they name, and come from them (L2cap/Channels
--                        puts SignalingChannel and Pairing behind it, as bluetoe/link_layer/include/bluetoe/link_layer.hpp
--                        does, beside a GATT server that is a parameter there).
--   Gatt                 bluetoe/server.hpp: the server of the attribute protocol, with the attributes of
--                        bluetoe/utility/include/bluetoe/attribute.hpp, the uuid filter of bluetoe/filter.hpp and the entries of
--                        bluetoe/service.hpp. A server is its tables: a function from indices to attributes, each a uuid and
--                        an access function (Gatt), the handlers by what they do (Gatt/Reads, Discovery, Writes) and the dispatch
--                        (Gatt/Requests). Prepared writes stand in WriteQueue, notifications come from NotificationQueue and are
--                        enabled in ClientConfiguration. The abstract view of prepared writes is a list (Gatt/Prepared).
--   HandleMapping        bluetoe/attribute_handle.hpp: from the index of an attribute in its server to its handle and back.
--                        The abstract view is a list of handles in ascending order (HandleMapping/Ascending).
--   SignalingChannel     bluetoe/link_layer/include/bluetoe/l2cap_signaling_channel.hpp: requests for other parameters of
--                        the connection.
--   ClientConfiguration  bluetoe/utility/include/bluetoe/client_characteristic_configuration.hpp: which characteristics a
--                        client wants to be notified of, two bits for each of them.
--   Shared               helpers, and lists, flags and memory as the parts above use them.
-- In each part, the file of its name holds the state and the operations, named as in the source, and the
-- files below it what is proved of them; Tests runs them and applies the theorems.
--
-- Conventions. Object state is a record that an operation takes and returns. Fixed-width integers are
-- natural numbers with the wrap-around written out (`% 2 ^ 16`); `std::size_t` positions do not reach their limit.
-- A pointer into a buffer is its offset, and a null pointer is `none`. Where a failed `assert` matters, the
-- operation gives `none`. Loops need no fuel: a loop over channels or entries recurs on the number of
-- steps that are left, receiving on the queue of PDUs, and sending on the room that the radio has for
-- PDUs. The loop over a write queue has fuel, the number of the elements or of bytes,
-- and the one over the notifications of a priority, one more than its size; both are shown
-- to be enough. Collecting the output of the channels ends with more fuel than the link layer has room for SDUs.
--
-- What is not modelled. Advertising, the link layer's own state machine and the values of characteristics are
-- further parts of the stack, which these parts do not depend on; the table of attributes that templates build is
-- a parameter, so are the access functions in it, of which those that read a value in memory are modelled. The radio itself is hardware: what it
-- writes into a buffer, whether an event could be disarmed and at what time are arguments. So are the
-- cryptographic functions and random values of pairing, what an application answers, its data base of bonds, and the hash of a resolvable
-- private address. Printing to streams is reduced to the value that is printed. Template options are arguments of
-- the operations that read them.
pub mod Shared
pub mod PduRing
pub mod PduBuffer
pub mod ChannelMap
pub mod DeltaTime
pub mod Address
pub mod WhiteList
pub mod PeripheralLatency
pub mod SduBuffer
pub mod SignalingChannel
pub mod WriteQueue
pub mod ClientConfiguration
pub mod Gatt
pub mod HandleMapping
pub mod IoCapabilities
pub mod L2cap
pub mod NotificationQueue
pub mod Pairing
