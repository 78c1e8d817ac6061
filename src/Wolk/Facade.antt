-- ===== src/Wolk/Facade.antt =====
-- Wolk::ConnectivityFacade of src/Wolk.cpp, with the services behind it: a message of the connection
-- goes to the message handler, whose next command gives it to a service.
use wolk_connect_cpp.Base.{
  String, Bool, true, false, Option, none, some, List, [], ◌∷◌, ◌++◌, ◌≡◌, ◌∙◌, ap, sym, is_some,
  arith, Bool-cases, inl, inr,
}
use wolk_connect_cpp.Sdk.Connectivity.{Message}
use wolk_connect_cpp.KeepAliveService
use wolk_connect_cpp.FirmwareUpdateService
use wolk_connect_cpp.FileDownloadService
use wolk_connect_cpp.FileDownloadService.Handlers
use wolk_connect_cpp.FileDownloadService.Handlers.{DownloadProtocol}
use wolk_connect_cpp.InboundPlatformMessageHandler
use wolk_connect_cpp.InboundPlatformMessageHandler.{
  InboundPlatformMessageHandler, next_command, get_channels,
}
use wolk_connect_cpp.InboundPlatformMessageHandler.Routing.{
  Unmatched, dropped, routed, message_received-Routed,
}
use wolk_connect_cpp.WolkBuilder.{
  Parts, Service, listeners, data_service, file_download_service, firmware_update_service,
  keep_alive_service,
}
use wolk_connect_cpp.Wolk.{Platform, Wolk}
use wolk_connect_cpp.Wolk.Commands.{data_message_received, connection_lost}

module _ (parts : Parts) (platform : Platform)
    (download_protocol : DownloadProtocol platform.kit) where
  open platform use {kit, setup, status_protocol}

  -- The library with its message handler.
  pub record Library : Type 0 where
    pub wolk : Wolk platform
    pub handler : InboundPlatformMessageHandler (listeners parts)

  -- messageReceived of the service; `none` is an exception that it lets out.
  pub deliver : Wolk platform → Service parts → Message → Option (Wolk platform)
  deliver w (data_service p) m = some (data_message_received platform w m)
  deliver w file_download_service m = elim w.file_download_service [
    | none ↦ some w
    | some s ↦ some (record w {
      file_download_service =
          some (FileDownloadService.Handlers.message_received kit download_protocol s m);
    })
  ]
  deliver w firmware_update_service m = elim w.firmware_update_service [
    | none ↦ some w
    | some s ↦ some (record w {
      firmware_update_service = some (FirmwareUpdateService.message_received setup s m);
    })
  ]
  deliver w keep_alive_service m = elim w.keep_alive_service [
    | none ↦ some w
    | some s ↦ elim (KeepAliveService.message_received status_protocol s m) [
      | none ↦ none
      | some s' ↦ some (record w { keep_alive_service = some s' })
    ]
  ]

  -- The service is there.
  alive : Wolk platform → Service parts → Bool
  alive w (data_service p) = true
  alive w file_download_service = is_some w.file_download_service
  alive w firmware_update_service = is_some w.firmware_update_service
  alive w keep_alive_service = is_some w.keep_alive_service

  -- ConnectivityFacade
  pub message_received : Library → String → String → Library
  message_received x channel message = record x {
    handler =
        InboundPlatformMessageHandler.message_received (listeners parts) x.handler channel message;
  }

  connection_lost_handler : Library → Library
  connection_lost_handler x = record x { wolk = connection_lost platform x.wolk }

  channels : Library → List String
  channels x = get_channels (listeners parts) x.handler

  -- The command buffer of the handler runs its next command.
  pub next_message : Library → Option Library
  unfolding deliver alive
  next_message x =
      let (taken, rest) = next_command (listeners parts) (alive x.wolk) x.handler in
      elim taken [
        | none ↦ some (record x { handler = rest })
        | some (l, m) ↦ elim (deliver x.wolk l m) [
          | none ↦ none
          | some w ↦ some (record { wolk = w; handler = rest })
        ]
      ]

  -- The library after a service has had the message.
  abbrev pub after : Library → Option (Wolk platform) → Option Library
  after x none = none
  after x (some w) = some (record x { wolk = w })

  -- What becomes of a message: no topic matches it, or the service of the first topic that does has it.
  pub data Arrives (x : Library) (channel text : String) (o : Option Library) : Type 0 where
    unheard :
        Unmatched (listeners parts) channel x.handler.channel_handlers
        → o ≡ some x
        → Arrives x channel text o
    heard :
        (before rest : List (String × Service parts)) (topic : String) (l : Service parts)
        → x.handler.channel_handlers ≡ before ++ (topic, l) ∷ rest
        → Unmatched (listeners parts) channel before
        → parts.mqtt_topic_match topic channel ≡ true
        → o ≡ after x (deliver x.wolk l (record { content = text; channel = channel }))
        → Arrives x channel text o

  deliver-gone :
      (w : Wolk platform) (l : Service parts) (m : Message)
      → alive w l ≡ false
      → deliver w l m ≡ some w
  unfolding deliver alive
  deliver-gone w (data_service p) m e = absurd (cc e)
  deliver-gone w file_download_service m e = ground arith
  deliver-gone w firmware_update_service m e = ground arith
  deliver-gone w keep_alive_service m e = ground arith

  emptied :
      (x : Library)
      → x.handler.commands ≡ []
      → ◌≡◌ {A = InboundPlatformMessageHandler (listeners parts)}
          (record x.handler { commands = [] })
          x.handler
  emptied x e = ap (λ cs. record x.handler { commands = cs }) (sym e)

  idle_lem : (x : Library) → x.handler.commands ≡ [] → next_message x ≡ some x
  unfolding next_message next_command
  idle_lem x e =
      ap (λ cs. next_message (record x { handler = record x.handler { commands = cs } })) e
      ∙ ap (λ h. some (record x { handler = h })) (emptied x e)

  taken_lem :
      (x : Library) (h : InboundPlatformMessageHandler (listeners parts)) (l : Service parts)
      (m : Message)
      → x.handler.commands ≡ []
      → h ≡ record x.handler { commands = x.handler.commands ++ (l, m) ∷ [] }
      → next_message (record x { handler = h }) ≡ after x (deliver x.wolk l m)
  unfolding next_message next_command
  taken_lem x h l m e q =
      ap (λ h'. next_message (record x { handler = h' }))
        (q ∙ ap (λ cs. record x.handler { commands = cs ++ (l, m) ∷ [] }) e)
      ∙ elim (Bool-cases (alive x.wolk l)) [
        | inl there ↦
            rw (there, next_message)
              (ap
                (λ h'. elim (deliver x.wolk l m) [
                  | none ↦ none
                  | some w ↦ some (record { wolk = w; handler = h' })
                ])
                (emptied x e))
        | inr gone ↦
            rw (gone, deliver-gone x.wolk l m gone, next_message)
              (ap (λ h'. some (record x { handler = h' })) (emptied x e))
      ]

  -- A message of the connection, while no other waits in the message handler, and the command that it
  -- leads to: when no registered topic matches its channel, nothing changes; otherwise the service of
  -- the first topic that matches has the message, if it is there, and nothing else happens.
  pub message_received-Arrives :
      (x : Library) (channel text : String)
      → x.handler.commands ≡ []
      → Arrives x channel text (next_message (message_received x channel text))
  unfolding message_received
  message_received-Arrives x channel text e =
      elim (message_received-Routed (listeners parts) x.handler channel text) [
        | dropped un q ↦
            unheard un (ap (λ h. next_message (record x { handler = h })) q ∙ idle_lem x e)
        | routed before rest topic l split un matches q ↦
            heard before rest topic l split un matches (
              taken_lem x
                (InboundPlatformMessageHandler.message_received (listeners parts) x.handler channel
                  text)
                l (record { content = text; channel = channel }) e q)
      ]
