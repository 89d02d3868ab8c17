-- ===== src/Tests.antt =====
-- The theorems at concrete inputs, and runs of the definitions.
mod JidTests
mod BufferTests
mod FramingTests
mod RosterTests
mod ClientTests
mod NegotiationTests
mod SessionsTests
mod DispatchTests
mod FormTests
mod RoomTests
mod DiscoTests
mod PresenceTests
mod RoomItemTests
mod MessageTests
mod ParserTests
mod VcardTests
mod CapabilitiesTests
mod BookmarkTests
mod IqTests
